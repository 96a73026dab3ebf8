-- ===== src/Runtime/Collection.antt =====
-- `gc_collect_minor`, `gc_collect_major` and `gc_collect_full` (src/core/runtime.c). Without an
-- algorithm's function a full collection visits the roots with a visitor that does nothing.
use xgc.Runtime.{Runtime, Vtable}
use xgc.Prelude.{Option, none, some, add_size}
use mathlib.Core.Option

module _ {S : Type 0} where
  abbrev pub count_minor : Runtime S → Runtime S
  count_minor rt = record rt {
    stats = record (rt.stats) { minor_collections = add_size rt.stats.minor_collections 1 };
  }

  abbrev pub count_major : Runtime S → Runtime S
  count_major rt = record rt {
    stats = record (rt.stats) { major_collections = add_size rt.stats.major_collections 1 };
  }

  abbrev pub count_full : Runtime S → Runtime S
  count_full rt = record rt {
    stats = record (rt.stats) { full_collections = add_size rt.stats.full_collections 1 };
  }

  -- A collection through a pointer that is tested first.
  abbrev pub collect_if : Option (Runtime S → Option (Runtime S)) → Runtime S → Option (Runtime S)
  collect_if none rt = some rt
  collect_if (some collect) rt = collect rt

  unfoldable pub collect_minor : Vtable S → Runtime S → Option (Runtime S)
  collect_minor algo rt = Option.map count_minor (collect_if algo.collect_minor rt)

  unfoldable pub collect_major : Vtable S → Runtime S → Option (Runtime S)
  collect_major algo rt = Option.map count_major (elim algo.collect_major [
    | none ↦ collect_if algo.collect_full rt
    | some collect ↦ collect rt
  ])

  unfoldable pub collect_full : Vtable S → Runtime S → Option (Runtime S)
  collect_full algo rt = Option.map count_full (collect_if algo.collect_full rt)
