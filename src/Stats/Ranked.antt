-- ===== src/Stats/Ranked.antt =====
-- `sortByValueDesc` of internal/query/stats.go.
use mathlib.Core.List.Perm
use mathlib.Core.List.{Perm, append-nil, append_assoc}
use code_iq.Base.{
  ℕ, ◌≡◌, refl, sym, ap, ap₂, subst, ◌∙◌, Bool, true, false, List, [], ◌∷◌, ◌++◌, ltb, nat_beq,
  arith, if◌then◌else◌,
}
use code_iq.Base.Text.{
  Text, text_eq, text_beq_iff, text_lt, text_lt_irrefl, text_lt_trans, text_lt_total,
}
use code_iq.Base.Assoc.{lookup, insert, has, has-insert}
use code_iq.Base.Assoc.Distinct.{IsDistinct}
use code_iq.Base.Assoc.Permuted.{IsDistinct-perm}
use code_iq.Base.Sort.{TextLe-trans}
use code_iq.Base.Sort.With.{sort_with, IsOrdered, sort_with-perm, sort_with-IsOrdered}
use code_iq.Base.Sort.With.Unique.{sort_with-perm_eq}
use code_iq.Stats.Ordered.{OrderedMap, ordered, entries_of}
use code_iq.Stats.Ordered.Refines.{insert_all, ordered_refines}

-- The larger count first, then by name.
unfoldable pub by_count : Text × ℕ → Text × ℕ → Bool
by_count a b = if nat_beq a.1 b.1 then text_lt a.0 b.0 else ltb b.1 a.1

-- The rows come in the order in which Go visits the map.
unfoldable pub sort_by_value_desc : List (Text × ℕ) → OrderedMap ℕ
unfolding by_count
sort_by_value_desc rows = ordered (sort_with by_count rows)

by_count_asym : (a b : Text × ℕ) → by_count a b ≡ true → by_count b a ≡ false
unfolding by_count
by_count_asym a b h = ground (arith, text_lt_irrefl a.0, text_lt_trans a.0 b.0 a.0)

by_count_trans :
    (a b c : Text × ℕ) → by_count b a ≡ false → by_count c b ≡ false → by_count c a ≡ false
unfolding by_count
by_count_trans a b c h k = ground (arith, TextLe-trans a.0 b.0 c.0)

by_count_total : (a b : Text × ℕ) → by_count a b ≡ false → by_count b a ≡ false → a ≡ b
unfolding by_count
by_count_total (s, m) (t, n) h k =
    let names : s ≡ t = ground (arith, text_lt_total s t) in
    let counts : m ≡ n = ground arith in ap₂ (λ x y. (x, y)) names counts

insert-new :
    (k : Text) (n : ℕ) (l : List (Text × ℕ)) → has k l ≡ false → insert k n l ≡ l ++ (k, n) ∷ []
unfolding insert has lookup
insert-new k n [] h = refl
insert-new k n ((j, i) ∷ l) h = ground (arith, insert-new k n l)

insert_all-distinct :
    (l m : List (Text × ℕ))
    → IsDistinct m
    → ((k : Text) → has k m ≡ true → has k l ≡ false)
    → insert_all m l ≡ l ++ m
unfolding has lookup
insert_all-distinct l [] d h = sym (append-nil l)
insert_all-distinct l ((k, n) ∷ m) d h =
    let new = h k (ground (arith, text_beq_iff k k)) in
    let apart : (j : Text) → has j m ≡ true → has j (insert k n l) ≡ false =
      λ j inside. ground (arith, has-insert k j n l, text_beq_iff k j, d.0, h j) in
    insert_all-distinct (insert k n l) m d.1 apart
    ∙ (ap (λ r. r ++ m) (insert-new k n l new) ∙ append_assoc l ((k, n) ∷ []) m)

row_set : IsSet (Text × ℕ)
row_set = hlevel

-- The rows of a map, in whatever order Go visits it, are written out as one and the same list:
-- the entries of the map, none before one with a larger count, or with an equal count and a
-- smaller name.
pub sort_by_value_desc_lem :
    (rows visited : List (Text × ℕ))
    → IsDistinct rows
    → Perm visited rows
    → (entries_of (sort_by_value_desc visited) ≡ sort_with by_count rows)
      × Perm (entries_of (sort_by_value_desc visited)) rows
      × IsOrdered by_count (entries_of (sort_by_value_desc visited))
      × (sort_by_value_desc visited ≡ sort_by_value_desc rows)
unfolding sort_by_value_desc has lookup
sort_by_value_desc_lem rows visited d p =
    let one = sort_with-perm_eq by_count row_set by_count_asym by_count_trans by_count_total p in
    let sorted = sort_with by_count rows in
    let written : entries_of (sort_by_value_desc visited) ≡ sorted =
      ap (λ l. entries_of (ordered l)) one
      ∙ (ordered_refines sorted
          ∙ insert_all-distinct [] sorted
              (IsDistinct-perm (Perm.symm (sort_with-perm by_count rows)) d) (λ k h. refl)) in
    (
      written,
      subst (λ l. Perm l rows) (sym written) (sort_with-perm by_count rows),
      subst (IsOrdered by_count) (sym written)
          (sort_with-IsOrdered by_count by_count_asym by_count_trans rows),
      ap ordered one,
    )
