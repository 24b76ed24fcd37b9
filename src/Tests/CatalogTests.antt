-- ===== src/Tests/CatalogTests.antt =====
-- Runs of the catalog.
use authorization_document.Catalog.Immutable.{IsFixed, steps-IsFixed, next, saves, disables, done}
use authorization_document.Catalog.Versions.{
  publish, Version, save_version, disable_version, latest_version, version_row, mark_published,
  mark_disabled,
}
use authorization_document.Tests.Data.{get_ok}
use authorization_document.Model.Rows.{Key, published_version, draft_version, Json}
use authorization_document.Base.{
  refl, none, some, [], ◌∷◌, find, List, arith, any, count, update_where, find_latest,
}

runs : Unit {0}
unfolding find any count update_where find_latest latest_version version_row mark_published
    mark_disabled publish disable_version save_version
runs = tt

abbrev first_draft : List (Version Json)
first_draft =
    record {
      id = 1;
      owner = 10;
      version = 1;
      status = draft_version;
      content = 900;
      created_by = 60;
      published_at = none;
      disabled_at = none;
    }
    ∷ []

-- Version 1 is published; saving then makes version 2, and version 1 is disabled.
abbrev published_one : List (Version Json)
published_one = get_ok (publish 1000 1 first_draft) []

abbrev saved_two : Key × List (Version Json)
saved_two = get_ok (save_version 2 10 60 901 published_one) (0, [])

abbrev disabled_one : List (Version Json)
disabled_one = get_ok (disable_version 2000 1 saved_two.1) []

published_one-IsFixed : IsFixed 1 1 900 published_one
unfolding runs
published_one-IsFixed = (
  record {
    id = 1;
    owner = 10;
    version = 1;
    status = published_version;
    content = 900;
    created_by = 60;
    published_at = some 1000;
    disabled_at = none;
  },
  refl,
  refl,
  refl,
  refl,
  omega arith,
)

steps-IsFixed_example : IsFixed 1 1 900 disabled_one
unfolding runs
steps-IsFixed_example =
    steps-IsFixed 1 1 900 published_one disabled_one
      (next (saves 2 10 60 2 901 published_one saved_two.1 refl)
        (next (disables 2000 1 saved_two.1 disabled_one refl) done))
      published_one-IsFixed
