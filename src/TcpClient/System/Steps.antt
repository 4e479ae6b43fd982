-- ===== src/TcpClient/System/Steps.antt =====
-- The operations of a client and its connector, and the ends of connections, keep the system sound.
use ouge_net_lib.Common.{
  ℕ, ◌+◌, ◌^◌, ◌≡◌, refl, sym, ◌∙◌, subst, false, inl, inr, Option, none, some, List, [], ◌∷◌, ◌==◌,
  ltb, arith, Bool-cases, ok, Ensures, Ensures-ok, Result-cases,
}
use ouge_net_lib.TcpConnection.{
  Connection, Effect as ConnectionEffect, connect_established as establish,
}
use ouge_net_lib.TcpConnection.Closing.{IsDown, finish_succeeds}
use ouge_net_lib.Connector.{Effect as ConnectorEffect, hand_over}
use ouge_net_lib.TcpClient.{
  Conn, TcpClient, Done, by_connectors, new_conn, conn_name, new_connection, deliver,
}
use ouge_net_lib.TcpClient.Single.{handed, deliver_none}
use ouge_net_lib.TcpClient.System.{System, put, do_effect, do_effects, run_end, Picks}
use ouge_net_lib.TcpClient.System.Invariant.{
  one_if, ending, ending-Picks, absent, removed, Suits, At, IsSound, IsSound-one, ending-removed,
  put_other, put_same,
}

pub same_one : (n : ℕ) → one_if (n == n) ≡ 1
same_one n = ground arith

pub run_end-IsSound :
    (conn : Conn) (rest : List Conn) (y : System)
    → IsSound y
    → Picks conn y.ends rest
    → (z : System) × (run_end conn (record y { ends = rest }) ≡ ok z) × IsSound z
unfolding run_end
run_end-IsSound conn rest y v p =
    let n = conn.address in
    let w = v.follows n in
    let one : ending n y.ends ≡ 1 + ending n rest = ending-Picks n p ∙ omega (arith, same_one n) in
    let st : w.stage ≡ removed = ending-removed w.stage (omega (arith, one, w.at.1)) in
    let (cur, fin, suits) = subst (λ s. At s n y) st w.at in
    let (c, there, e) = removed_there (y.conn_of n) suits in
    let (d, is_down, (es, done), freed) = finish_succeeds c e in
    let z : System = record y { conn_of = put n none y.conn_of; ends = rest } in
    (
      z,
      rw (there, done, freed) refl,
      IsSound-one n y z v v.valid
          (λ a other st' h. (
            h.0,
            omega (arith, h.1, ending-Picks a p, other_one a n other),
            subst (Suits st') (sym (put_other a n none y.conn_of other)) h.2,
          ))
          (record {
            stage = absent;
            at = (
              cur,
              omega (arith, fin, one),
              subst (Suits absent) (sym (put_same n none y.conn_of)) tt,
            );
          }),
    )
  where
    removed_there :
        (o : Option Connection) → Suits removed o → (c : Connection) × (o ≡ some c) × IsDown c
    removed_there (some c) s = (c, refl, s)
    removed_there none s = absurd s

    other_one : (a n : ℕ) → a == n ≡ false → one_if (a == n) ≡ 0
    other_one a n other = rw other refl

-- The connector's effects do nothing to the connections.
pub do_effects_quiet :
    (fresh : Connection) (es : List ConnectorEffect) (y : System)
    → do_effects fresh (by_connectors es) y ≡ ok y
unfolding do_effect
do_effects_quiet fresh [] y = refl
do_effects_quiet fresh (e ∷ es) y = do_effects_quiet fresh es y

-- A socket that is handed over becomes a connection that is up.
abbrev pub Made : ℕ → Connection → Connection → Done → Type 0
Made address fresh d r =
    (conn : Conn) × (r.0.connection ≡ some conn)
    × (conn.address ≡ address)
    × ((y : System)
        → do_effects fresh r.1 y ≡ ok (record y { conn_of = put address (some d) y.conn_of }))

pub deliver-Made :
    (address : ℕ) (peer : List ℕ) (es : List ConnectorEffect) (c : TcpClient) (fresh d : Connection)
    (fx : List ConnectionEffect)
    → handed es ≡ 1
    → establish fresh ≡ ok (d, fx)
    → Ensures (deliver address peer es c) (Made address fresh d)
unfolding deliver new_connection do_effect
deliver-Made address peer [] c fresh d fx h e = absurd (omega arith)
deliver-Made address peer (hand_over fd ∷ es) c fresh d fx h e =
    elim (Bool-cases (ltb (c.next_conn_id + 1) (2 ^ 31))) [
      | inr full ↦ rw full tt
      | inl room ↦
          let conn = new_conn address (conn_name c.name peer c.next_conn_id) fd c.loop in
          let k : TcpClient = record c {
            next_conn_id = c.next_conn_id + 1;
            connection = some conn;
          } in
          let rest = deliver_none address peer es k (omega (arith, h)) in
          rw (room, rest)
            (
              conn,
              refl,
              refl,
              λ y. rw e (
                  do_effects_quiet fresh es
                    (record y { conn_of = put address (some d) y.conn_of })),
            )
    ]
deliver-Made address peer (e' ∷ es) c fresh d fx h e =
    elim (Result-cases (deliver address peer es c)) [
      | inl got ↦
          let (r, done) = got in
          let first =
            Ensures-ok (deliver address peer es c) (Made address fresh d) r
              (deliver-Made address peer es c fresh d fx h e) done in
          rw done first
      | inr failed ↦ rw failed.1 tt
    ]
