-- ===== src/Topology/Cycles/Rotate.antt =====
-- `normalizeCycle` turns a cycle so that it starts at its least service.
use Prim.Native.Nat.{◌%◌}
use native.Mathlib.Nat.{mod-eq_of_lt, add-mod_left}
use mathlib.Core.List.{Nodup, append_assoc, append-nil}
use mathlib.Core.List.Perm
use code_iq.Base.{
  ℕ, zero, suc, ◌+◌, ◌<◌, ◌≡◌, refl, sym, ap, ap₂, subst, ◌∙◌, inl, inr, Bool, List, [], ◌∷◌, ◌++◌,
  length, length-append, All, All-imp, All-split, All-append, arith, Bool-cases,
}
use code_iq.Base.Text.{Text, text_lt, text_lt_irrefl}
use code_iq.Base.Members.{append_swap-perm}
use code_iq.Base.Sort.{TextLe, TextLe-trans, TextLe-of_lt}
use code_iq.Topology.Cycles.{least_from, at, rotate_from, drop_last, close, normalize_cycle}
use code_iq.Topology.Cycles.Walks.{IsWalk, IsCycle, IsWalk-suffix, IsWalk-prefix, IsWalk-glue}

at-append :
    (front : List Text) (t : Text) (back : List Text) → at (front ++ t ∷ back) (length front) ≡ t
at-append [] t back = refl
at-append (s ∷ front) t back = at-append front t back

-- The rounds that read a stretch in the middle give that stretch.
rotate_from-stretch :
    (body front mid back : List Text) (i min : ℕ)
    → body ≡ front ++ (mid ++ back)
    → ((k : ℕ) → k < length mid → (min + (i + k)) % length body ≡ length front + k)
    → rotate_from (length mid) i body min ≡ mid
unfolding rotate_from
rotate_from-stretch body front [] back i min e h = refl
rotate_from-stretch body front (t ∷ mid) back i min e h =
    let index : (min + i) % length body ≡ length front =
      subst (λ j. (min + j) % length body ≡ length front) (omega arith)
        (h 0 (omega arith) ∙ omega arith) in
    let head : at body ((min + i) % length body) ≡ t =
      ap (at body) index ∙ (ap (λ l. at l (length front)) e ∙ at-append front t (mid ++ back)) in
    let tail =
      rotate_from-stretch body (front ++ t ∷ []) mid back (suc i) min
        (e ∙ sym (append_assoc front (t ∷ []) (mid ++ back)))
        (λ k less.
          subst (λ j. (min + j) % length body ≡ length (front ++ t ∷ []) + k) (omega arith)
            (h (suc k) (omega (arith, less)) ∙ omega (arith, length-append front (t ∷ [])))) in
    ap₂ (λ x l. x ∷ l) head tail

rotate_from-add :
    (a b i : ℕ) (body : List Text) (min : ℕ)
    → rotate_from (a + b) i body min ≡ rotate_from a i body min ++ rotate_from b (i + a) body min
unfolding rotate_from
rotate_from-add zero b i body min =
    let none_first : 0 + b ≡ b = omega arith in
    let same_start : i ≡ i + 0 = omega arith in
    ap₂ (λ n j. rotate_from n j body min) none_first same_start
rotate_from-add (suc a) b i body min =
    let one_more : suc a + b ≡ suc (a + b) = omega arith in
    let start : suc i + a ≡ i + suc a = omega arith in
    ap (λ n. rotate_from n i body min) one_more
    ∙ ap (λ l. at body ((min + i) % length body) ∷ l)
        (rotate_from-add a b (suc i) body min
          ∙ ap (λ j. rotate_from a (suc i) body min ++ rotate_from b j body min) start)

-- The loop of `normalizeCycle` turns the list.
rotate_from_lem :
    (front back : List Text)
    → rotate_from (length (front ++ back)) 0 (front ++ back) (length front) ≡ back ++ front
rotate_from_lem front back =
    let body = front ++ back in
    let total : length body ≡ length back + length front =
      omega (arith, length-append front back) in
    let no_shift : (k : ℕ) → 0 + k ≡ k = λ k. omega arith in
    ap (λ n. rotate_from n 0 body (length front)) total
    ∙ (rotate_from-add (length back) (length front) 0 body (length front)
        ∙ ap₂ ◌++◌
            (rotate_from-stretch body front back [] 0 (length front)
              (ap (λ l. front ++ l) (sym (append-nil back)))
              (λ k less.
                ap (λ j. (length front + j) % length body) (no_shift k)
                ∙ mod-eq_of_lt (omega (arith, less, total))))
            (rotate_from-stretch body [] front back (0 + length back) (length front) refl (λ k less.
              ap (λ j. j % length body) (omega (arith, total))
              ∙ (add-mod_left (length body) k
                  ∙ (mod-eq_of_lt (omega (arith, less, total)) ∙ sym (no_shift k))))))

-- Where a least text of the list stands.
record LeastAt (body : List Text) (min : ℕ) : Type 0 where
  front : List Text
  least : Text
  back : List Text
  shape : body ≡ front ++ least ∷ back
  index : length front ≡ min
  below : All (TextLe least) body

least_from-LeastAt :
    (i min : ℕ) (best : Text) (front mid ts : List Text)
    → length front ≡ min
    → length (front ++ best ∷ mid) ≡ i
    → All (TextLe best) (front ++ best ∷ mid)
    → LeastAt ((front ++ best ∷ mid) ++ ts) (least_from i min best ts)
unfolding least_from
least_from-LeastAt i min best front mid [] at_min at_i below =
    let same = append-nil (front ++ best ∷ mid) in
    record {
      front = front;
      least = best;
      back = mid;
      shape = same;
      index = at_min;
      below = subst (All (TextLe best)) (sym same) below;
    }
least_from-LeastAt i min best front mid (t ∷ ts) at_min at_i below =
    let done = front ++ best ∷ mid in
    let next : length (done ++ t ∷ []) ≡ suc i = omega (arith, length-append done (t ∷ []), at_i) in
    elim (Bool-cases (text_lt t best)) [
      | inl less ↦
          rw (least_from, less)
            (subst (λ l. LeastAt l (least_from (suc i) i t ts)) (append_assoc done (t ∷ []) ts)
              (least_from-LeastAt (suc i) i t done [] ts at_i next (
                All-append (TextLe t) done (t ∷ [])
                  (All-imp (TextLe best) (TextLe t)
                    (λ a le. TextLe-trans t best a (TextLe-of_lt t best less) le) done below)
                  (text_lt_irrefl t, tt))))
      | inr more ↦
          let longer : done ++ t ∷ [] ≡ front ++ best ∷ (mid ++ t ∷ []) =
            append_assoc front (best ∷ mid) (t ∷ []) in
          rw (least_from, more)
            (subst (λ l. LeastAt l (least_from (suc i) min best ts))
              (ap (λ l. l ++ ts) (sym longer) ∙ append_assoc done (t ∷ []) ts)
              (least_from-LeastAt (suc i) min best front (mid ++ t ∷ []) ts at_min
                (ap length (sym longer) ∙ next)
                (subst (All (TextLe best)) longer
                  (All-append (TextLe best) done (t ∷ []) below (more, tt)))))
    ]

drop_last-append : (ts : List Text) (t : Text) → drop_last (ts ++ t ∷ []) ≡ ts
drop_last-append [] t = refl
drop_last-append (s ∷ []) t = refl
drop_last-append (s ∷ u ∷ ts) t = ap (λ l. s ∷ l) (drop_last-append (u ∷ ts) t)

normalize_cycle-closed :
    (t : Text) (rest : List Text)
    → normalize_cycle ((t ∷ rest) ++ t ∷ [])
      ≡ close (rotate_from (length (t ∷ rest)) 0 (t ∷ rest) (least_from 1 0 t rest))
unfolding normalize_cycle
normalize_cycle-closed t [] = refl
normalize_cycle-closed t (u ∷ rest) =
    ap (λ l. close (rotate_from (length (t ∷ l)) 0 (t ∷ l) (least_from 1 0 t l)))
      (drop_last-append (u ∷ rest) t)

module _ (edge : Text → Text → Bool) where
  -- A closed walk, cut at a service and put together the other way round.
  IsWalk-turn :
      (front : List Text) (b : Text) (back : List Text)
      → IsWalk edge (close (front ++ b ∷ back))
      → IsWalk edge (((b ∷ back) ++ front) ++ b ∷ [])
  IsWalk-turn [] b back w = subst (λ l. IsWalk edge (l ++ b ∷ [])) (sym (append-nil (b ∷ back))) w
  IsWalk-turn (s ∷ front) b back w =
      let long : IsWalk edge ((s ∷ front) ++ (b ∷ (back ++ s ∷ []))) =
        subst (IsWalk edge) (append_assoc (s ∷ front) (b ∷ back) (s ∷ [])) w in
      subst (IsWalk edge) (sym (append_assoc (b ∷ back) (s ∷ front) (b ∷ []))) (
        IsWalk-glue edge (b ∷ back) s (front ++ b ∷ [])
          (IsWalk-suffix edge (s ∷ front) (b ∷ (back ++ s ∷ [])) long)
          (IsWalk-prefix edge (s ∷ front) b (back ++ s ∷ []) long))

  IsCycle-turn :
      (body : List Text) (min : ℕ)
      → LeastAt body min
      → IsWalk edge (close body)
      → Nodup body
      → IsCycle edge (close (rotate_from (length body) 0 body min))
  IsCycle-turn body min at_min w n =
      let front = at_min.front in
      let b = at_min.least in
      let back = at_min.back in
      let turned : rotate_from (length body) 0 body min ≡ (b ∷ back) ++ front =
        ap₂ (λ l i. rotate_from (length l) 0 l i) at_min.shape (sym at_min.index)
        ∙ rotate_from_lem front (b ∷ back) in
      let (low_front, low_back) =
        All-split (TextLe b) front (b ∷ back) (subst (All (TextLe b)) at_min.shape at_min.below) in
      record {
        first = b;
        others = back ++ front;
        shape = ap close turned;
        walk = IsWalk-turn front b back (subst (λ l. IsWalk edge (close l)) at_min.shape w);
        least = All-append (TextLe b) back front low_back.1 low_front;
        simple = Perm.nodup (append_swap-perm front (b ∷ back)) (subst Nodup at_min.shape n);
      }

  -- A closed walk that passes no service twice is turned into a cycle.
  pub normalize_cycle-IsCycle :
      (t : Text) (rest : List Text)
      → IsWalk edge ((t ∷ rest) ++ t ∷ [])
      → Nodup (t ∷ rest)
      → IsCycle edge (normalize_cycle ((t ∷ rest) ++ t ∷ []))
  normalize_cycle-IsCycle t rest w n = subst (IsCycle edge) (sym (normalize_cycle-closed t rest)) (
      IsCycle-turn (t ∷ rest) (least_from 1 0 t rest)
        (least_from-LeastAt 1 0 t [] [] rest refl refl (text_lt_irrefl t, tt)) w n)
