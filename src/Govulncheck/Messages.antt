-- ===== src/Govulncheck/Messages.antt =====
-- internal/govulncheckapi/handler.go and internal/govulncheck/handler.go: the messages of govulncheck,
-- and the handler that keeps the findings and the OSV entries. `C` and `P` are the types of the
-- messages Config and Progress.
mod Tests
use pkgsite_metrics.Prelude.{List, [], ◌∷◌, ◌++◌, Option, none, some, Text, text_eq, if◌then◌else◌}
use pkgsite_metrics.Derrors.{Err, Result, ok, err}
use pkgsite_metrics.Osv.{Entry}
use pkgsite_metrics.Govulncheck.{Finding}

pub record Message (C P : Type 0) : Type 0 where
  pub config : Option C
  pub progress : Option P
  pub osv : Option Entry
  pub finding : Option Finding

pub record Handler (C P S : Type 0) : Type 0 where
  pub on_config : C → S → S × Option Err
  pub on_progress : P → S → S × Option Err
  pub on_osv : Entry → S → S × Option Err
  pub on_finding : Finding → S → S × Option Err

-- One of the parts of a message: its error, if the part is there, takes the place of the one before.
abbrev pub part :
    {A S : Type 0} → (A → S → S × Option Err) → Option A → S × Option Err → S × Option Err
part f none (s, e) = (s, e)
part f (some a) (s, e) = f a s

module _ {C P S : Type 0} (to : Handler C P S) where
  unfoldable pub dispatch : Message C P → S → S × Option Err
  dispatch msg s = part to.on_finding msg.finding (
      part to.on_osv msg.osv
        (part to.on_progress msg.progress (part to.on_config msg.config (s, none))))

  abbrev pub after : S × Option Err → (S → S × Option Err) → S × Option Err
  after (s, some e) rest = (s, some e)
  after (s, none) rest = rest s

  -- HandleJSON, on what decoding the stream gives, up to and with its first error.
  unfoldable pub handle_json : List (Result (Message C P)) → S → S × Option Err
  handle_json [] s = (s, none)
  handle_json (err e ∷ msgs) s = (s, some e)
  handle_json (ok msg ∷ msgs) s = after (dispatch msg s) (handle_json msgs)

-- The map `osvs` has the newest entry of an ID first.
pub record MetricsHandler : Type 0 where
  pub findings : List Finding
  pub osvs : List (Text × Entry)

abbrev pub new_metrics_handler : MetricsHandler
new_metrics_handler = record { findings = []; osvs = [] }

abbrev pub metrics_handler : {C P : Type 0} → Handler C P MetricsHandler
metrics_handler = record {
  on_config = λ c h. (h, none);
  on_progress = λ p h. (h, none);
  on_osv = λ e h. (record h { osvs = (e.id, e) ∷ h.osvs }, none);
  on_finding = λ f h. (record h { findings = h.findings ++ (f ∷ []) }, none);
}
