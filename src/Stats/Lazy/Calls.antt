-- ===== src/Stats/Lazy/Calls.antt =====
-- What a client of `StoreStatsService` sees: the statistics of one snapshot.
use code_iq.Base.{◌≡◌, refl, ap, Bool, true, false, ◌||◌, none, List, [], ◌∷◌, if◌then◌else◌, any}
use code_iq.Stats.Lazy.{
  Loaded, Request, ask_stats, ask_category, ask_err, Answer, whole, category, error, new_service,
  load, stats_of, category_of, call, call_all,
}

-- The requests that load.
abbrev pub loads : Request → Bool
loads ask_stats = true
loads (ask_category name) = true
loads ask_err = false

module _ {W E : Type 0} (loader : W → Loaded E × W) where
  -- The answer to one request when this is what has been loaded.
  abbrev pub answer_from : Loaded E → Request → Answer E
  answer_from l ask_stats = whole (stats_of loader l)
  answer_from l (ask_category name) = category (category_of loader l name)
  answer_from l ask_err = error l.err

  -- The abstract service: a snapshot, and whether a request has needed it yet. Before that there is
  -- no error to report.
  abbrev pub answers_from : Loaded E → Bool → List Request → List (Answer E)
  answers_from l loaded [] = []
  answers_from l loaded (r ∷ rs) =
      (if loaded || loads r then answer_from l r else error none)
      ∷ answers_from l (loaded || loads r) rs

  call_all-loaded :
      (rs : List Request) (l : Loaded E) (w : W)
      → call_all loader rs (record { once = true; cache = l; world = w })
        ≡ (answers_from l true rs, record { once = true; cache = l; world = w })
  unfolding call_all call load
  call_all-loaded [] l w = refl
  call_all-loaded (ask_stats ∷ rs) l w = rw (call_all-loaded rs l w) refl
  call_all-loaded (ask_category name ∷ rs) l w = rw (call_all-loaded rs l w) refl
  call_all-loaded (ask_err ∷ rs) l w = rw (call_all-loaded rs l w) refl

  -- Whatever a client calls and in whatever order, each answer is computed from the snapshot that
  -- one call of the loader gives, a request for the error before the first load finds none, and
  -- the loader is called once where a request needs it and not at all where none does.
  pub call_all-refines :
      (rs : List Request) (w : W)
      → ((call_all loader rs (new_service loader w)).0 ≡ answers_from (loader w).0 false rs)
        × ((call_all loader rs (new_service loader w)).1.world
            ≡ (if any loads rs then (loader w).1 else w))
  unfolding call_all call load new_service
  call_all-refines [] w = (refl, refl)
  call_all-refines (ask_stats ∷ rs) w =
      rw (call_all-loaded rs (loader w).0 (loader w).1) (refl, refl)
  call_all-refines (ask_category name ∷ rs) w =
      rw (call_all-loaded rs (loader w).0 (loader w).1) (refl, refl)
  call_all-refines (ask_err ∷ rs) w =
      let (answers, world) = call_all-refines rs w in (ap (λ l. error none ∷ l) answers, world)
