-- ===== src/Worker/Vulndb/Again.antt =====
-- internal/worker/vulndb.go: a second handleVulnDB adds nothing when nothing was modified.
use pkgsite_metrics.Prelude.{
  ◌≡◌, Bool, true, false, not, ◌&&◌, ◌||◌, List, [], ◌∷◌, Option, none, some, Text, text_eq, ltb,
  leb, if◌then◌else◌,
}
use pkgsite_metrics.Derrors.{ok}
use pkgsite_metrics.Osv.{Time}
use pkgsite_metrics.Vulndb.{Entry}
use pkgsite_metrics.Worker.Vulndb.{Sources, last_modified_of}

abbrev later_of : Time → Option Time → Option Time
later_of t none = some t
later_of t (some u) = some (if ltb t u then u else t)

-- The latest time at which an entry was modified, of all rows of its ID.
unfoldable pub max_modified : Text → List Entry → Option Time
max_modified id [] = none
max_modified id (e ∷ es) =
    let rest = max_modified id es in if text_eq e.id id then later_of e.modified_time rest else rest

unfoldable pub has_id : Text → List Entry → Bool
has_id id [] = false
has_id id (e ∷ es) = text_eq e.id id || has_id id es

unfoldable pub unique_ids : List Entry → Bool
unique_ids [] = true
unique_ids (e ∷ es) = not (has_id e.id es) && unique_ids es

abbrev pub not_after : Option Time → Time → Bool
not_after none t = true
not_after (some u) t = leb u t

-- No row of a table was modified after the entry of its ID.
unfoldable pub none_newer : List Entry → List Entry → Bool
none_newer [] table = true
none_newer (e ∷ es) table =
    not_after (max_modified e.id table) e.modified_time && none_newer es table

-- The query gives for each ID the time of the row that was modified last.
abbrev pub IsMostRecent : Sources → Type 0
IsMostRecent s =
    (table rows : List Entry)
    → s.most_recent table ≡ ok rows
    → (id : Text) → last_modified_of id rows ≡ max_modified id table

abbrev Ready : List Entry → List Entry → List Entry → Type 0
Ready recent [] table = Unit
Ready recent (e ∷ es) table =
    (last_modified_of e.id recent ≡ max_modified e.id table) × Ready recent es table

abbrev Stored : List Entry → List Entry → Type 0
Stored [] table = Unit
Stored (e ∷ es) table = (max_modified e.id table ≡ some e.modified_time) × Stored es table
