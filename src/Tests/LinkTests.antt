-- ===== src/Tests/LinkTests.antt =====
-- Runs of the link operations.
use authorization_document.Links.Resolution.{consume-resolve}
use authorization_document.Links.Access.{resolve, consume, create_link, find_open, disable_if_open}
use authorization_document.Links.SingleOpen.{
  submit_draft-sole_token, replace_link-sole_token, close-resolve,
}
use authorization_document.Links.Operations.{submit_draft, replace_link, close}
use authorization_document.Tests.Data.{no_rows, one_case, get_ok, hash_of, some_link, some_case}
use authorization_document.Model.Db.{Db, put}
use authorization_document.Model.Rows.{public_link_renewed}
use authorization_document.Model.Status.{draft, awaiting_customer, customer_editing}
use authorization_document.Base.{
  ℕ, none, some, true, refl, [], ◌∷◌, ok, err, not_found, link_unavailable, any, ◌≡◌, ◌≢◌, arith,
  find, count, update_where, is_blank,
}

runs : Unit {0}
unfolding submit_draft replace_link close resolve consume create_link find any count update_where
    find_open disable_if_open is_blank
runs = tt

abbrev waiting : Db
waiting = one_case awaiting_customer none

abbrev submitted : Db
submitted = get_ok (submit_draft hash_of 1000 21 8 60 1 9000 (one_case draft none)) no_rows

-- The old token is dead and the new one resolves.
submit_run :
    (resolve hash_of 2000 8 submitted ≡ ok (some_link 21 1 8 9000))
    × (resolve hash_of 2000 7 submitted ≡ err (not_found link_unavailable))
unfolding runs
submit_run = (refl, refl)

submit_draft-sole_token_example : 1008 ≡ hash_of 8
unfolding runs
submit_draft-sole_token_example =
    submit_draft-sole_token hash_of 1000 21 8 60 1 9000 (one_case draft none) submitted refl 2000 8
      (some_link 21 1 8 9000) (omega arith) submit_run.0 refl

abbrev renewed : Db
renewed =
    get_ok (replace_link hash_of 1000 21 8 60 1 (some 9000) public_link_renewed true waiting)
      no_rows

replace_link-sole_token_example : 1008 ≡ hash_of 8
unfolding runs
replace_link-sole_token_example =
    replace_link-sole_token hash_of 1000 21 8 60 1 (some 9000) public_link_renewed true waiting
      renewed (omega arith) refl 2000 8 (some_link 21 1 8 9000) (omega arith) refl refl

abbrev used : Db
used = get_ok (consume 1000 (some_link 20 1 7 5000) waiting) no_rows

consume-resolve_example : resolve hash_of 1001 7 used ≡ err (not_found link_unavailable)
unfolding runs
consume-resolve_example =
    consume-resolve hash_of 1000 1001 7 waiting used (some_link 20 1 7 5000) refl refl

-- Two cases; the first is closed, and the token of the second still resolves.
abbrev two_cases : Db
two_cases = record waiting {
  cases =
      put (put (λ _. none) 1 (some (some_case customer_editing none))) 2
        (some (some_case awaiting_customer none));
  links = some_link 20 1 7 5000 ∷ some_link 22 2 9 5000 ∷ [];
}

abbrev closed_first : Db
closed_first = get_ok (close 1000 60 1 (some (b'x' ∷ [])) two_cases) no_rows

close-resolve_example : ◌≢◌ {A = ℕ} 2 1
unfolding runs
close-resolve_example =
    close-resolve hash_of 1000 60 1 (some (b'x' ∷ [])) two_cases closed_first refl 2000 9
      (some_link 22 2 9 5000) refl
