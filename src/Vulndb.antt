-- ===== src/Vulndb.antt =====
-- internal/vulndb/vulndb.go: the rows of the table of vulnerabilities.
use pkgsite_metrics.Prelude.{none, some, List, [], ◌∷◌, ◌++◌, Text}
use pkgsite_metrics.Osv.{Time, Affected}
use pkgsite_metrics.Osv

pub record Range : Type 0 where
  pub introduced : Text
  pub fixed : Text

pub record Module : Type 0 where
  pub path : Text
  pub ranges : List Range

-- `created_at` is set by the upload.
pub record Entry : Type 0 where
  pub created_at : Time
  pub modified_time : Time
  pub published_time : Time
  pub withdrawn_time : Time
  pub id : Text
  pub modules : List Module

abbrev events : List Osv.RangeEvent → List Range
events [] = []
events (e ∷ es) = record { introduced = e.introduced; fixed = e.fixed } ∷ events es

abbrev ranges : List Osv.Range → List Range
ranges [] = []
ranges (r ∷ rs) = events r.events ++ ranges rs

abbrev modules : List Affected → List Module
modules [] = []
modules (a ∷ affected) =
    record { path = a.module_of.path; ranges = ranges a.ranges } ∷ modules affected

-- The zero time.
abbrev zero_time : Time
zero_time = 0

unfoldable pub convert : Osv.Entry → Entry
convert oe = record {
  created_at = zero_time;
  modified_time = oe.modified;
  published_time = oe.published;
  withdrawn_time = elim oe.withdrawn [ none ↦ zero_time | some t ↦ t ];
  id = oe.id;
  modules = modules oe.affected;
}
