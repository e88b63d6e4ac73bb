-- ===== src/Stats/Lazy.antt =====
-- `StoreStatsService` of internal/query/stats.go. The loader is a parameter: a callback of the
-- caller's over the caller's own world, which it may change.
pub mod Calls
use code_iq.Base.{Bool, true, false, Option, none, some, List, [], ◌∷◌, if◌then◌else◌}
use code_iq.Base.Text.{Text}
use code_iq.Model.Node.{CodeNode, CodeEdge}
use code_iq.Stats.Ordered.{OrderedMap, new_ordered}
use code_iq.Stats.Categories.{Category, compute_stats, compute_category, stats}

-- What a loader returns: its slices and its error, if any.
pub record Loaded (E : Type 0) : Type 0 where
  pub nodes : List CodeNode
  pub edges : List CodeEdge
  pub err : Option E

-- The service beside the world of its loader.
pub record Service (W E : Type 0) : Type 0 where
  pub once : Bool
  pub cache : Loaded E
  pub world : W

-- The exported methods, and what each answers. The nil of an unknown category is `none`.
pub data Request : Type 0 where
  ask_stats : Request
  ask_category : Text → Request
  ask_err : Request

pub data Answer (E : Type 0) : Type 0 where
  whole : OrderedMap Category → Answer E
  category : Option Category → Answer E
  error : Option E → Answer E

module _ {W E : Type 0} (loader : W → Loaded E × W) where
  unfoldable pub new_service : W → Service W E
  new_service w = record {
    once = false;
    cache = record { nodes = []; edges = []; err = none };
    world = w;
  }

  unfoldable pub load : Service W E → Service W E
  load s =
      let loaded = loader s.world in
      if s.once then s else record { once = true; cache = loaded.0; world = loaded.1 }

  -- `ComputeStats` and `ComputeCategory` of a service that has loaded.
  abbrev pub stats_of : Loaded E → OrderedMap Category
  stats_of l = elim l.err [ none ↦ compute_stats l.nodes l.edges | some e ↦ new_ordered ]

  abbrev pub category_of : Loaded E → Text → Option Category
  category_of l name = elim l.err [
    | none ↦ compute_category l.nodes l.edges name
    | some e ↦ some (stats new_ordered)
  ]

  unfoldable pub call : Request → Service W E → Answer E × Service W E
  unfolding load
  call ask_stats s = (whole (stats_of (load s).cache), load s)
  call (ask_category name) s = (category (category_of (load s).cache name), load s)
  call ask_err s = (error s.cache.err, s)

  -- A client's calls, one after the other.
  unfoldable pub call_all : List Request → Service W E → List (Answer E) × Service W E
  unfolding call
  call_all [] s = ([], s)
  call_all (r ∷ rs) s =
      let first = call r s in let later = call_all rs first.1 in (first.0 ∷ later.0, later.1)
