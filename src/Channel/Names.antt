-- ===== src/Channel/Names.antt =====
-- The text of a channel's events names exactly the events that are set.
use ouge_net_lib.Common.{
  ℕ, ◌≡◌, refl, Bool, true, false, List, [], ◌∷◌, ◌++◌, drop, ◌==◌, if◌then◌else◌, arith, length,
}
use ouge_net_lib.Common.Decimal.{int_digits}
use ouge_net_lib.Channel.{
  has, event_names, names_of, events_to_string, poll_in, poll_pri, poll_out, poll_hup, poll_rdhup,
  poll_err, poll_nval,
}

-- Which names stand in a text, each told by its first letter, in the order of the source.
abbrev pub reads_names : List (ℕ × List ℕ) → List ℕ → List Bool
reads_names [] text = []
reads_names ((mask, []) ∷ ns) text = false ∷ reads_names ns text
reads_names ((mask, c ∷ cs) ∷ ns) [] = false ∷ reads_names ns []
reads_names ((mask, c ∷ cs) ∷ ns) (d ∷ text) =
    let there = reads_names ns (drop (length cs) text) in
    let missing = reads_names ns (d ∷ text) in if c == d then true ∷ there else false ∷ missing

abbrev name_if : Bool → List ℕ → List ℕ
name_if b name = if b then name else []

reads_flags :
    (a b c d e f g : Bool)
    → reads_names event_names (
        name_if a (73 ∷ 78 ∷ 32 ∷ [])
        ++ (name_if b (80 ∷ 82 ∷ 73 ∷ 32 ∷ [])
            ++ (name_if c (79 ∷ 85 ∷ 84 ∷ 32 ∷ [])
                ++ (name_if d (72 ∷ 85 ∷ 80 ∷ 32 ∷ [])
                    ++ (name_if e (82 ∷ 68 ∷ 72 ∷ 85 ∷ 80 ∷ 32 ∷ [])
                        ++ (name_if f (69 ∷ 82 ∷ 82 ∷ 32 ∷ [])
                            ++ (name_if g (78 ∷ 86 ∷ 65 ∷ 76 ∷ 32 ∷ []) ++ [])))))))
      ≡ a ∷ b ∷ c ∷ d ∷ e ∷ f ∷ g ∷ []
reads_flags a b c d e f g = ground arith

-- The text of any events of any descriptor is the descriptor, a colon and a space, and then exactly
-- the names of the events that are set, in the order of the source, so that they can be read back.
pub events_to_string-has :
    (fd ev : ℕ)
    → (names : List ℕ) × (events_to_string fd ev ≡ int_digits fd ++ 58 ∷ 32 ∷ names)
      × (reads_names event_names names
          ≡ has ev poll_in
            ∷ has ev poll_pri
            ∷ has ev poll_out
            ∷ has ev poll_hup
            ∷ has ev poll_rdhup
            ∷ has ev poll_err
            ∷ has ev poll_nval
            ∷ [])
unfolding events_to_string
events_to_string-has fd ev = (
  names_of event_names ev,
  refl,
  reads_flags (has ev poll_in) (has ev poll_pri) (has ev poll_out) (has ev poll_hup)
      (has ev poll_rdhup) (has ev poll_err) (has ev poll_nval),
)
