-- ===== src/Retention/Export.antt =====
-- `planExport` of src/ops/retention-policy.ts.
use Prim.Native.String.{◌++◌}
use my_shtty_pi_herdr_deck.Base.{String, List, [], ◌∷◌, map, Option, none, some, if◌then◌else◌}
use my_shtty_pi_herdr_deck.Base.Json.{Number}
use my_shtty_pi_herdr_deck.Base.Sort.{sort}
use my_shtty_pi_herdr_deck.Base.Text.{is_digest}
use my_shtty_pi_herdr_deck.State.Host.{number_text}
use my_shtty_pi_herdr_deck.Scheduler.Admission.{Collation}
use my_shtty_pi_herdr_deck.Retention.{
  RetentionResource, RefusalReason, invalid_resource, RetentionRefusal, validate_resource, refusal,
}

pub record ExportEntry : Type 0 where
  pub id : String
  pub path : String
  pub kind : String
  pub bytes : Number
  pub sha256 : String

pub record ExportPlan : Type 0 where
  pub entries : List ExportEntry
  pub manifest : List String
  pub refusals : List RetentionRefusal

abbrev pub export_entry : RetentionResource → String → ExportEntry
export_entry r sha256 = record {
  id = r.id;
  path = r.path;
  kind = r.kind;
  bytes = r.bytes;
  sha256 = sha256;
}

-- The entries and the refusals of the loop, in its order.
pub record Exported : Type 0 where
  pub entries : List ExportEntry
  pub refusals : List RetentionRefusal

abbrev pub refuse : RetentionResource → RefusalReason → Exported → Exported
refuse r reason rest = record rest { refusals = refusal r reason ∷ rest.refusals }

-- A resource that is valid needs a digest.
abbrev pub export_digest : RetentionResource → Option String → Exported → Exported
export_digest r none rest = refuse r invalid_resource rest
export_digest r (some sha256) rest =
    if is_digest sha256
    then record rest { entries = export_entry r sha256 ∷ rest.entries }
    else refuse r invalid_resource rest

abbrev pub export_valid : RetentionResource → Option RefusalReason → Exported → Exported
export_valid r (some reason) rest = refuse r reason rest
export_valid r none rest = export_digest r r.sha256 rest

unfoldable pub export_all : List RetentionResource → Exported
export_all [] = record { entries = []; refusals = [] }
export_all (r ∷ rs) = export_valid r (validate_resource r) (export_all rs)

abbrev pub manifest_line : ExportEntry → String
manifest_line entry =
    entry.path ++ ("\t" ++ (number_text entry.bytes ++ ("\tsha256:" ++ entry.sha256)))

abbrev pub sorted_entries : Collation → List ExportEntry → List ExportEntry
sorted_entries c entries = sort (λ a b. c.le a.path b.path) entries

unfoldable pub plan_export : Collation → List RetentionResource → ExportPlan
unfolding export_all
plan_export c resources = record {
  entries = sorted_entries c (export_all resources).entries;
  manifest = map manifest_line (sorted_entries c (export_all resources).entries);
  refusals = sort (λ a b. c.le a.path b.path) (export_all resources).refusals;
}
