-- ===== src/Chartutil/Render.antt =====
-- ToRenderValuesCaps of pkg/chartutil/values.go: the values that templates see.
use helm.Common.{Bytes, codes, Option}
use helm.Common.Decimal.{itoa, format}
use helm.Result.{Result, bind, ok}
use helm.Chartutil.Value.{Value, Fields, bool, number, text, table, values, end, field}
use helm.Chartutil.Coalesce.{Chart, coalesce_all, entries}
use helm.Tiller.Server.{ReleaseOptions}

-- the table "Release"; a time is its seconds
abbrev pub release_table : ReleaseOptions → Fields
release_table o = field (codes "Name") (text o.name) (
    field (codes "Time") (number (format o.time)) (
      field (codes "Namespace") (text o.namespace) (
        field (codes "IsUpgrade") (bool o.is_upgrade) (
          field (codes "IsInstall") (bool o.is_install) (
            field (codes "Revision") (number (itoa o.revision))
              (field (codes "Service") (text (codes "Tiller")) end))))))

-- `metadata`, `files` and `capabilities` stand for the Go structs of these names. The map that is
-- returned beside an error is not kept.
unfoldable pub to_render_values_caps :
    (read_values : Bytes → Result Fields) (metadata files capabilities : Value) (c : Chart)
    (vals : Option Bytes)
    → ReleaseOptions
    → Result Fields
to_render_values_caps read_values metadata files capabilities c vals options =
    bind (coalesce_all read_values c vals) λ r. ok (
      field (codes "Release") (table (release_table options)) (
        field (codes "Chart") metadata (
          field (codes "Files") files (
            field (codes "Capabilities") capabilities
              (field (codes "Values") (values (entries r)) end)))))
