-- ===== src/Linker/Topic/Calls.antt =====
-- What the edges of the topic linker say.
use code_iq.Base.{
  ◌≡◌, refl, ◌∙◌, ◌↔◌, inl, inr, Bool, true, not, ◌&&◌, Option, some, List, [], ◌∷◌, ◌++◌, Eq, ◌==◌,
  map, contains, contains-map-append, flat, arith, Bool-cases, if◌then◌else◌,
}
use code_iq.Base.Text.{Text, text_eq, text_beq, text_beq_iff, lit}
use code_iq.Base.Assoc.{lookup}
use code_iq.Model.Node.{CodeEdge, text, Value}
use code_iq.Linker.{inferred}
use code_iq.Linker.Topic.{topic_edge, pair_up}

-- What an edge of the linker says: who calls whom over which topic.
pub record Call : Type 0 where
  pub producer : Text
  pub consumer : Text
  pub topic : Text

abbrev text_of : Option Value → Text
text_of (some (text s)) = s
text_of _ = []

abbrev pub call_of : CodeEdge → Call
call_of e = record {
  producer = e.source_id;
  consumer = e.target_id;
  topic = text_of (lookup (lit "topic") e.properties);
}

abbrev call_beq : Call → Call → Bool
call_beq a b = a.producer == b.producer && (a.consumer == b.consumer && a.topic == b.topic)

pub call_beq_iff : (a b : Call) → (call_beq a b ≡ true) ↔ (a ≡ b)
call_beq_iff a b = ground (
  arith,
  text_beq_iff a.producer b.producer,
  text_beq_iff a.consumer b.consumer,
  text_beq_iff a.topic b.topic,
)

instance abbrev pub call_eq : Eq Call
call_eq = record { beq = call_beq; beq_iff = call_beq_iff }

topic_of :
    (l : Text) → lookup (lit "topic") (inferred ++ (lit "topic", text l) ∷ []) ≡ some (text l)
unfolding lookup text_beq
topic_of l = refl

-- A block of calls for one label.
contains-row :
    (p c label l p' : Text) (cons : List Text)
    → contains
        (record { producer = p; consumer = c; topic = label })
        (map call_of (flat (λ c'. if p' == c' then [] else topic_edge l p' c' ∷ []) cons))
      ≡ (l == label && (p' == p && (contains c cons && not (p == c))))
contains-row p c label l p' [] = ground arith
contains-row p c label l p' (x ∷ cons) = elim (Bool-cases (p' == x)) [
  | inl same ↦ rw same (
      ground (
        arith,
        text_beq_iff p' x,
        text_beq_iff p' p,
        text_beq_iff p c,
        text_beq_iff c x,
        contains-row p c label l p' cons,
      ))
  | inr other ↦ rw other (
      ground (
        arith,
        topic_of l,
        text_beq_iff p' x,
        text_beq_iff p' p,
        text_beq_iff p p',
        text_beq_iff p c,
        text_beq_iff c x,
        text_beq_iff x c,
        text_beq_iff l label,
        text_beq_iff label l,
        contains-row p c label l p' cons,
      ))
]

pub contains-pair_up :
    (p c label l : Text) (prods cons : List Text)
    → contains
        (record { producer = p; consumer = c; topic = label })
        (map call_of (pair_up l prods cons))
      ≡ (l == label && (contains p prods && (contains c cons && not (p == c))))
unfolding pair_up
contains-pair_up p c label l [] cons = ground arith
contains-pair_up p c label l (p' ∷ prods) cons =
    contains-map-append (record { producer = p; consumer = c; topic = label }) call_of
      (flat (λ c'. if p' == c' then [] else topic_edge l p' c' ∷ []) cons) (pair_up l prods cons)
    ∙ ground (
      arith,
      text_beq_iff p p',
      text_beq_iff p' p,
      contains-row p c label l p' cons,
      contains-pair_up p c label l prods cons,
    )
