-- ===== src/Catalog/Immutable.antt =====
-- A version that has been published keeps its content.
use authorization_document.Catalog.Versions.{
  publish, version_row, Version, disable_version, is_draft, save_version, mark_published,
  mark_disabled, latest_version,
}
use authorization_document.Model.Rows.{published_version, disabled_version, Key, Time}
use authorization_document.Base.{
  refl, inl, inr, [], ◌∷◌, some, false, true, ℕ, refl, inl, inr, some, false, ok, List, ◌≡◌, count,
  update_where, ◌==◌, ◌≤◌, find_updated, count-update_where, Bool-cases, ◌∙◌, find, find_latest,
  any-false_found, subst, arith, Bool, ◌⊎◌, find_sound, sym, Option-cases, any, ◌&&◌, >>=-eq-ok,
  found_passes, from_option, not_found, row_missing, from_option-eq-ok, ap, ok_injective, require,
  not,
}

module _ {C : Type 0} where
  -- One step on the versions of one kind; `publishes_checked` is `publishTemplateAtomically` after the
  -- caller's check.
  pub data VersionStep : List (Version C) → List (Version C) → Type 0 where
    publishes :
        (now : Time) (id : Key) (rows rows' : List (Version C))
        → publish now id rows ≡ ok rows'
        → VersionStep rows rows'
    publishes_checked :
        (now : Time) (id : Key) (rows rows' : List (Version C))
        → rows' ≡ mark_published now id rows
        → VersionStep rows rows'
    disables :
        (now : Time) (id : Key) (rows rows' : List (Version C))
        → disable_version now id rows ≡ ok rows'
        → VersionStep rows rows'
    saves :
        (new_id owner actor written : Key) (content : C) (rows rows' : List (Version C))
        → save_version new_id owner actor content rows ≡ ok (written, rows')
        → VersionStep rows rows'

  -- Any number of them.
  pub data VersionSteps : List (Version C) → List (Version C) → Type 0 where
    done : {rows : List (Version C)} → VersionSteps rows rows
    next : {a b c : List (Version C)} → VersionStep a b → VersionSteps b c → VersionSteps a c

  -- The row under an identifier has this content and is no draft.
  abbrev pub IsFixed : Key → ℕ → C → List (Version C) → Type 0
  IsFixed id version content rows =
      (v : Version C) × (version_row id rows ≡ some v)
      × (v.content ≡ content)
      × (v.version ≡ version)
      × (is_draft v.status ≡ false)
      × (count (λ x. x.id == id) rows ≤ 1)

  marked-IsFixed :
      (id id' : Key) (version : ℕ) (content : C) (f : Version C → Version C)
      → ((x : Version C) → (f x).id ≡ x.id)
      → ((x : Version C) → (f x).content ≡ x.content)
      → ((x : Version C) → (f x).version ≡ x.version)
      → ((x : Version C) → is_draft (f x).status ≡ false)
      → (rows : List (Version C)) → IsFixed id version content rows
      → IsFixed id version content (update_where (λ v. v.id == id') f rows)
  unfolding version_row
  marked-IsFixed id id' version content f ids contents versions no_draft rows
        (v, found, c, n, d, one) =
      let after =
        find_updated (λ v. v.id == id') f (λ v. v.id == id) (λ x. rw (ids x) refl) rows found in
      let keeps =
        count-update_where (λ v. v.id == id) (λ v. v.id == id') f (λ x. rw (ids x) refl) rows in
      elim (Bool-cases (v.id == id')) [
        | inl e ↦ (f v, rw e at after, contents v ∙ c, versions v ∙ n, no_draft v, rw keeps one)
        | inr e ↦ (v, rw e at after, c, n, d, rw keeps one)
      ]

  find_behind :
      (m : Version C) (id : Key) (rows : List (Version C)) {v : Version C}
      → (m.id == id) ≡ false
      → find (λ x. x.id == id) rows ≡ some v
      → find (λ x. x.id == id) (m ∷ rows) ≡ some v
  unfolding find
  find_behind m id rows apart h = rw apart h

  count_behind :
      (m : Version C) (id : Key) (rows : List (Version C))
      → (m.id == id) ≡ false
      → count (λ x. x.id == id) rows ≤ 1
      → count (λ x. x.id == id) (m ∷ rows) ≤ 1
  unfolding count
  count_behind m id rows apart h = rw apart h

  publish-eq-ok :
      (now : Time) (id : Key) (rows rows' : List (Version C))
      → publish now id rows ≡ ok rows'
      → rows' ≡ mark_published now id rows
  unfolding publish
  publish-eq-ok now id rows rows' h = ground arith

  disable-eq-ok :
      (now : Time) (id : Key) (rows rows' : List (Version C))
      → disable_version now id rows ≡ ok rows'
      → rows' ≡ mark_disabled now id rows
  unfolding disable_version
  disable-eq-ok now id rows rows' h = ground arith

  mark_published-IsFixed :
      (now : Time) (id id' : Key) (version : ℕ) (content : C) (rows : List (Version C))
      → IsFixed id version content rows
      → IsFixed id version content (mark_published now id' rows)
  unfolding mark_published
  mark_published-IsFixed now id id' version content rows w =
      marked-IsFixed id id' version content
        (λ v. record v { status = published_version; published_at = some now }) (λ x. refl)
        (λ x. refl) (λ x. refl) (λ x. refl) rows w

  mark_disabled-IsFixed :
      (now : Time) (id id' : Key) (version : ℕ) (content : C) (rows : List (Version C))
      → IsFixed id version content rows
      → IsFixed id version content (mark_disabled now id' rows)
  unfolding mark_disabled
  mark_disabled-IsFixed now id id' version content rows w =
      marked-IsFixed id id' version content
        (λ v. record v { status = disabled_version; disabled_at = some now }) (λ x. refl)
        (λ x. refl) (λ x. refl) (λ x. refl) rows w

  count_latest :
      (number : Version C → ℕ) (p r : Version C → Bool) (xs : List (Version C)) {x : Version C}
      → find_latest number p xs ≡ some x
      → r x ≡ true
      → 1 ≤ count r xs
  unfolding find_latest count
  count_latest number p r [] h t = ground arith
  count_latest number p r (y ∷ xs) {x} h t = elim (Option-cases (find_latest number p xs)) [
    | inl e ↦ ground arith
    | inr (z, e) ↦ ground (arith, count_latest number p r xs {x = z})
  ]

  saved_split :
      (new_id owner actor written : Key) (content : C) (rows rows' : List (Version C))
      → save_version new_id owner actor content rows ≡ ok (written, rows')
      → (l : Version C) × (latest_version owner rows ≡ some l)
        × (((is_draft l.status ≡ true)
              × (rows'
                  ≡ update_where (λ v. v.id == l.id) (λ v. record v { content = content }) rows))
            ⊎ ((any (λ v. v.id == new_id) rows ≡ false)
                × ((n : Version C) × (n.id ≡ new_id) × (rows' ≡ n ∷ rows))))
  unfolding save_version
  saved_split new_id owner actor written content rows rows' h =
      let (l, e, k) =
        >>=-eq-ok (from_option (not_found row_missing) (latest_version owner rows)) _ h in
      (
        l,
        from_option-eq-ok _ (latest_version owner rows) e,
        elim (Bool-cases (is_draft l.status)) [
          | inl d ↦
              inl (d, sym (ap (λ (p : Key × List (Version C)). p.1) (ok_injective (rw d at k))))
          | inr d ↦
              let (u, fresh, m) =
                >>=-eq-ok (require (not (any (λ v. v.id == new_id) rows)) _) _ (rw d at k) in
              inr (
                ground arith,
                (_, refl, sym (ap (λ (p : Key × List (Version C)). p.1) (ok_injective m))),
              )
        ],
      )

  not_written :
      (owner id : Key) (rows : List (Version C)) (l v : Version C)
      → latest_version owner rows ≡ some l
      → is_draft l.status ≡ true
      → version_row id rows ≡ some v
      → is_draft v.status ≡ false
      → count (λ x. x.id == id) rows ≤ 1
      → (v.id == l.id) ≡ false
  unfolding latest_version version_row
  not_written owner id rows l v latest d found fixed one =
      let named = find_sound (λ x. x.id == id) rows found in
      elim (Bool-cases (v.id == l.id)) [
        | inr e ↦ e
        | inl e ↦
            let r = λ (x : Version C). x.id == id && is_draft x.status in
            let same : l.id ≡ id = ground arith in
            let there : 1 ≤ count r rows =
              count_latest (λ x. x.version) (λ x. x.owner == owner) r rows latest (ground arith) in
            let passes : r v ≡ true =
              found_passes (λ x. x.id == id) r (λ x p. ground arith) rows found one there in
            ground arith
      ]

  saved-IsFixed :
      (id : Key) (version : ℕ) (content : C) (new_id owner actor written : Key) (text : C)
      (rows rows' : List (Version C))
      → save_version new_id owner actor text rows ≡ ok (written, rows')
      → IsFixed id version content rows
      → IsFixed id version content rows'
  unfolding version_row
  saved-IsFixed id version content new_id owner actor written text rows rows' h
        (v, found, c, n, d, one) =
      let (l, latest, ways) = saved_split new_id owner actor written text rows rows' h in
      elim ways [
        | inl (editable, e) ↦
            let other = not_written owner id rows l v latest editable found d one in
            let after =
              find_updated (λ x. x.id == l.id) (λ x. record x { content = text }) (λ x. x.id == id)
                (λ x. refl) rows found in
            let keeps =
              count-update_where (λ x. x.id == id) (λ x. x.id == l.id)
                (λ x. record x { content = text }) (λ x. refl) rows in
            (v, rw e (rw other at after), c, n, d, rw (e, keeps) one)
        | inr (fresh, (m, named, e)) ↦
            let unseen = any-false_found (λ x. x.id == id) (λ x. x.id == new_id) rows fresh found in
            let mine = find_sound (λ x. x.id == id) rows found in
            let apart : (m.id == id) ≡ false = ground arith in
            (
              v,
              rw e (find_behind m id rows apart found),
              c,
              n,
              d,
              rw e (count_behind m id rows apart one),
            )
      ]

  step-IsFixed :
      (id : Key) (version : ℕ) (content : C) (rows rows' : List (Version C))
      → VersionStep rows rows'
      → IsFixed id version content rows
      → IsFixed id version content rows'
  step-IsFixed id version content _ _ (publishes now id' rows rows' h) w =
      subst (IsFixed id version content) (sym (publish-eq-ok now id' rows rows' h))
        (mark_published-IsFixed now id id' version content rows w)
  step-IsFixed id version content _ _ (publishes_checked now id' rows rows' e) w =
      subst (IsFixed id version content) (sym e)
        (mark_published-IsFixed now id id' version content rows w)
  step-IsFixed id version content _ _ (disables now id' rows rows' h) w =
      subst (IsFixed id version content) (sym (disable-eq-ok now id' rows rows' h))
        (mark_disabled-IsFixed now id id' version content rows w)
  step-IsFixed id version content _ _ (saves new_id owner actor written text rows rows' h) w =
      saved-IsFixed id version content new_id owner actor written text rows rows' h w

  -- Once a version, with one row for it, is no draft any more, no publications, disablings and
  -- saves, in any order, change its content or its number, and it does not become a draft again.
  pub steps-IsFixed :
      (id : Key) (version : ℕ) (content : C) (rows rows' : List (Version C))
      → VersionSteps rows rows'
      → IsFixed id version content rows
      → IsFixed id version content rows'
  steps-IsFixed id version content _ _ (done {rows}) w = w
  steps-IsFixed id version content _ _ (next {a} {b} {c} s rest) w =
      steps-IsFixed id version content b c rest (step-IsFixed id version content a b s w)
