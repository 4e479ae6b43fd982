-- ===== src/TcpServer/Connections.antt =====
-- The map of the connections by name, counted.
use ouge_net_lib.Common.{
  ℕ, ◌+◌, ◌≤◌, ◌≡◌, refl, ap, ◌∙◌, Bool, true, false, Bool-cases, inl, inr, List, [], ◌∷◌, All,
  arith, if◌then◌else◌,
}
use ouge_net_lib.TcpServer.{Conn, is_text, is_text_before, put_connection, erase_connection}
use ouge_net_lib.TcpServer.Names.{is_text_sym, is_text-same}

abbrev pub one_if : Bool → ℕ
one_if b = if b then 1 else 0

-- How many connections have a name.
abbrev pub live : List ℕ → List Conn → ℕ
live x [] = 0
live x (c ∷ cs) = one_if (is_text x c.name) + live x cs

-- No connection has the name.
abbrev pub IsFresh : List ℕ → List Conn → Type 0
IsFresh x cs = All (λ (c : Conn). is_text x c.name ≡ false) cs

abbrev pub IsDistinct : List Conn → Type 0
IsDistinct [] = Unit {0}
IsDistinct (c ∷ cs) = IsFresh c.name cs × IsDistinct cs

pub live_fresh : (x : List ℕ) (cs : List Conn) → IsFresh x cs → live x cs ≡ 0
live_fresh x [] f = refl
live_fresh x (c ∷ cs) f = rw f.0 (omega (arith, live_fresh x cs f.1))

is_text_trans : (x y z : List ℕ) → is_text x y ≡ true → is_text y z ≡ false → is_text x z ≡ false
is_text_trans x y z same other = ap (λ w. is_text w z) (is_text-same x y same) ∙ other

is_text-IsFresh : (x y : List ℕ) (cs : List Conn) → is_text x y ≡ true → IsFresh y cs → IsFresh x cs
is_text-IsFresh x y [] same f = tt
is_text-IsFresh x y (c ∷ cs) same f =
    (is_text_trans x y c.name same f.0, is_text-IsFresh x y cs same f.1)

pub live_distinct : (x : List ℕ) (cs : List Conn) → IsDistinct cs → live x cs ≤ 1
live_distinct x [] d = omega arith
live_distinct x (c ∷ cs) d = elim (Bool-cases (is_text x c.name)) [
  | inl same ↦ rw same (omega (arith, live_fresh x cs (is_text-IsFresh x c.name cs same d.0)))
  | inr other ↦ rw other (omega (arith, live_distinct x cs d.1))
]

pub live-put_connection :
    (x : List ℕ) (c : Conn) (cs : List Conn)
    → IsFresh c.name cs
    → live x (put_connection c cs) ≡ one_if (is_text x c.name) + live x cs
live-put_connection x c [] f = refl
live-put_connection x c (d ∷ cs) f = elim (Bool-cases (is_text_before c.name d.name)) [
  | inl b ↦ rw (f.0, b) refl
  | inr nb ↦ rw (f.0, nb) (omega (arith, live-put_connection x c cs f.1))
]

pub IsFresh-put_connection :
    (x : List ℕ) (c : Conn) (cs : List Conn)
    → is_text x c.name ≡ false
    → IsFresh x cs
    → IsFresh x (put_connection c cs)
IsFresh-put_connection x c [] other f = (other, tt)
IsFresh-put_connection x c (d ∷ cs) other f =
    ground (arith, IsFresh-put_connection x c cs other f.1, f, other)

pub put_connection-IsDistinct :
    (c : Conn) (cs : List Conn)
    → IsFresh c.name cs
    → IsDistinct cs
    → IsDistinct (put_connection c cs)
put_connection-IsDistinct c [] f d = (tt, tt)
put_connection-IsDistinct c (e ∷ cs) f d = elim (Bool-cases (is_text_before c.name e.name)) [
  | inl b ↦ rw (f.0, b) (f, d)
  | inr nb ↦
      rw (f.0, nb)
        (
          IsFresh-put_connection e.name c cs (is_text_sym e.name c.name ∙ f.0) d.0,
          put_connection-IsDistinct c cs f.1 d.1,
        )
]

pub IsFresh-erase :
    (x y : List ℕ) (cs : List Conn) → IsFresh x cs → IsFresh x (erase_connection y cs).1
IsFresh-erase x y [] f = tt
IsFresh-erase x y (c ∷ cs) f = ground (arith, IsFresh-erase x y cs f.1, f)

pub erase-IsDistinct :
    (y : List ℕ) (cs : List Conn) → IsDistinct cs → IsDistinct (erase_connection y cs).1
erase-IsDistinct y [] d = tt
erase-IsDistinct y (c ∷ cs) d =
    ground (arith, erase-IsDistinct y cs d.1, IsFresh-erase c.name y cs d.0, d)

-- `erase` gives the number of connections of the name, and takes them out.
pub erase_count :
    (y : List ℕ) (cs : List Conn) → IsDistinct cs → (erase_connection y cs).0 ≡ live y cs
erase_count y [] d = refl
erase_count y (c ∷ cs) d = elim (Bool-cases (is_text y c.name)) [
  | inl same ↦ rw same (omega (arith, live_fresh y cs (is_text-IsFresh y c.name cs same d.0)))
  | inr other ↦ rw other (omega (arith, erase_count y cs d.1))
]

pub live-erase :
    (x y : List ℕ) (cs : List Conn)
    → IsDistinct cs
    → live y cs ≡ 1
    → live x cs ≡ one_if (is_text x y) + live x (erase_connection y cs).1
live-erase x y [] d h = absurd (omega arith)
live-erase x y (c ∷ cs) d h = elim (Bool-cases (is_text y c.name)) [
  | inl same ↦ let e = is_text-same y c.name same in rw (same, e) refl
  | inr other ↦
      let there : live y cs ≡ 1 = ground (arith, h, other) in
      rw other (omega (arith, live-erase x y cs d.1 there))
]

-- The rest of a map keeps what all of it had.
pub All-erase :
    (P : Conn → Type 0) (y : List ℕ) (cs : List Conn) → All P cs → All P (erase_connection y cs).1
All-erase P y [] h = tt
All-erase P y (c ∷ cs) h = elim (Bool-cases (is_text y c.name)) [
  | inl same ↦ rw same h.1
  | inr other ↦ rw other (h.0, All-erase P y cs h.1)
]

pub All-put_connection :
    (P : Conn → Type 0) (c : Conn) (cs : List Conn) → P c → All P cs → All P (put_connection c cs)
All-put_connection P c [] p h = (p, tt)
All-put_connection P c (d ∷ cs) p h = elim (Bool-cases (is_text c.name d.name)) [
  | inl same ↦ rw same (p, h.1)
  | inr other ↦ elim (Bool-cases (is_text_before c.name d.name)) [
    | inl b ↦ rw (other, b) (p, h)
    | inr nb ↦ rw (other, nb) (h.0, All-put_connection P c cs p h.1)
  ]
]
