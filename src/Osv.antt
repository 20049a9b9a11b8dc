-- ===== src/Osv.antt =====
-- internal/osv: the entries of the vulnerability database that the program reads. A time.Time is
-- a number: it is only copied and compared.
pub mod ReviewStatus
use pkgsite_metrics.Prelude.{ℕ, Option, List, Text}

abbrev pub Time : Type 0
Time = ℕ

pub record Module : Type 0 where
  pub path : Text
  pub ecosystem : Text

pub record RangeEvent : Type 0 where
  pub introduced : Text
  pub fixed : Text

pub record Range : Type 0 where
  pub range_type : Text
  pub events : List RangeEvent

pub record Reference : Type 0 where
  pub reference_type : Text
  pub url : Text

pub record Package : Type 0 where
  pub path : Text
  pub goos : List Text
  pub goarch : List Text
  pub symbols : List Text

pub record EcosystemSpecific : Type 0 where
  pub packages : List Package

-- `module_of` is the field Module.
pub record Affected : Type 0 where
  pub module_of : Module
  pub ranges : List Range
  pub ecosystem_specific : EcosystemSpecific

pub record Credit : Type 0 where
  pub name : Text

-- `review_status` is a ReviewStatus, see Osv/ReviewStatus.antt.
pub record DatabaseSpecific : Type 0 where
  pub url : Text
  pub review_status : ℕ

pub record Entry : Type 0 where
  pub schema_version : Text
  pub id : Text
  pub modified : Time
  pub published : Time
  pub withdrawn : Option Time
  pub aliases : List Text
  pub details : Text
  pub affected : List Affected
  pub references : List Reference
  pub credits : List Credit
  pub database_specific : Option DatabaseSpecific
