-- ===== src/TcpClient/System/Invariant.antt =====
-- Where a connection of the client is: none at the address, up, or closed and about to end.
use ouge_net_lib.Common.{
  ℕ, ◌+◌, ◌≤◌, ◌≡◌, refl, ap, subst, Bool, true, false, inl, inr, Option, none, some, List, [], ◌∷◌,
  ◌++◌, ◌==◌, arith, if◌then◌else◌, Bool-cases,
}
use ouge_net_lib.TcpConnection.{Connection, is_open}
use ouge_net_lib.TcpConnection.Closing.{IsDown}
use ouge_net_lib.TcpClient.{Conn, TcpClient}
use ouge_net_lib.TcpClient.Single.{IsValid}
use ouge_net_lib.TcpClient.System.{System, new_system, put, Picks, first, later}

abbrev pub one_if : Bool → ℕ
one_if b = if b then 1 else 0

-- Whether the client's connection is at an address.
abbrev pub current : ℕ → Option Conn → ℕ
current a none = 0
current a (some conn) = one_if (a == conn.address)

abbrev pub ending : ℕ → List Conn → ℕ
ending a [] = 0
ending a (c ∷ cs) = one_if (a == c.address) + ending a cs

pub ending-append : (a : ℕ) (cs ds : List Conn) → ending a (cs ++ ds) ≡ ending a cs + ending a ds
ending-append a [] ds = omega arith
ending-append a (c ∷ cs) ds = omega (arith, ending-append a cs ds)

pub ending-Picks :
    {c : Conn} {cs rest : List Conn} (a : ℕ)
    → Picks c cs rest
    → ending a cs ≡ one_if (a == c.address) + ending a rest
ending-Picks a first = refl
ending-Picks a (later {d = d} p) = omega (arith, ending-Picks a p)

pub data Stage : Type 0 where
  absent up removed : Stage

abbrev pub currents : Stage → ℕ
currents up = 1
currents _ = 0

abbrev pub endings : Stage → ℕ
endings removed = 1
endings _ = 0

abbrev pub Suits : Stage → Option Connection → Type 0
Suits absent none = Unit {0}
Suits up (some c) = is_open c.state ≡ true
Suits removed (some c) = IsDown c
Suits _ _ = ⊥

abbrev pub At : Stage → ℕ → System → Type 0
At st a y =
    (current a y.client.connection ≡ currents st)
    × (ending a y.ends ≡ endings st)
    × Suits st (y.conn_of a)

pub record Follows (a : ℕ) (y : System) : Type 0 where
  pub stage : Stage
  pub at : At stage a y

pub record IsSound (y : System) : Type 0 where
  pub valid : IsValid y.client
  pub follows : (a : ℕ) → Follows a y

-- A step that concerns one address.
pub IsSound-one :
    (n : ℕ) (y z : System)
    → IsSound y
    → IsValid z.client
    → ((a : ℕ) → a == n ≡ false → (st : Stage) → At st a y → At st a z)
    → Follows n z
    → IsSound z
IsSound-one n y z v valid others this = record {
  valid = valid;
  follows = λ a. elim (Bool-cases (a == n)) [
    | inl same ↦ subst (λ m. Follows m z) (ground (arith, same)) this
    | inr other ↦
        let w = v.follows a in record { stage = w.stage; at = others a other w.stage w.at }
  ];
}

pub new_system-IsSound : (c : TcpClient) → IsValid c → c.connection ≡ none → IsSound (new_system c)
new_system-IsSound c v none_yet = record {
  valid = v;
  follows = λ a. record { stage = absent; at = (ap (current a) none_yet, refl, tt) };
}

-- The stage that shows in what the client or the loop has, or in the connection.
pub current-up : (st : Stage) → 1 ≤ currents st → st ≡ up
current-up st h = ground (arith, h)

pub ending-removed : (st : Stage) → 1 ≤ endings st → st ≡ removed
ending-removed st h = ground (arith, h)

pub open_stage :
    (st : Stage) (c : Connection) → Suits st (some c) → is_open c.state ≡ true → st ≡ up
open_stage absent c s is_up = absurd s
open_stage up c s is_up = refl
open_stage removed c s is_up = absurd (ground (arith, s, is_up))

pub put_other :
    (a n : ℕ) (o : Option Connection) (conn_of : ℕ → Option Connection)
    → a == n ≡ false
    → put n o conn_of a ≡ conn_of a
put_other a n o conn_of other = rw other refl

pub put_same :
    (n : ℕ) (o : Option Connection) (conn_of : ℕ → Option Connection) → put n o conn_of n ≡ o
put_same n o conn_of = ground arith
