-- ===== src/Export/RoundTrip.antt =====
-- What a reader of YAML makes of the scalars that the exporter writes.
pub mod Reader
use panops.Base.{Option, leb, suc, zero, ◌-◌}
use panops.Export.RoundTrip.Reader.{Place, after_backslash, behind, with_first}
