-- ===== src/TcpServer/Names.antt =====
-- The names of a server's connections: the server's name, its address and a running number.
use ouge_net_lib.Common.{
  ℕ, ◌^◌, ◌≤◌, ◌<◌, ◌≡◌, refl, sym, ap, ap₂, ◌∙◌, true, Bool-cases, inl, inr, List, [], ◌∷◌, ◌++◌,
  length, length-append, take_all, ◌==◌, arith,
}
use ouge_net_lib.Common.Decimal.{int_digits, length-decimal, decimal_injective, append_cancel}
use ouge_net_lib.TcpServer.{is_text, conn_name}

pub is_text_refl : (xs : List ℕ) → is_text xs xs ≡ true
is_text_refl [] = refl
is_text_refl (x ∷ xs) = ground (arith, is_text_refl xs)

pub is_text_sym : (xs ys : List ℕ) → is_text xs ys ≡ is_text ys xs
is_text_sym [] [] = refl
is_text_sym [] (y ∷ ys) = refl
is_text_sym (x ∷ xs) [] = refl
is_text_sym (x ∷ xs) (y ∷ ys) = ground (arith, is_text_sym xs ys)

pub is_text-same : (xs ys : List ℕ) → is_text xs ys ≡ true → xs ≡ ys
is_text-same [] [] h = refl
is_text-same [] (y ∷ ys) h = absurd (ground (arith, h))
is_text-same (x ∷ xs) [] h = absurd (ground (arith, h))
is_text-same (x ∷ xs) (y ∷ ys) h =
    ap₂ ◌∷◌ (ground (arith, h)) (is_text-same xs ys (ground (arith, h)))

-- The whole text fits the array.
conn_name_whole :
    (name ip_port : List ℕ) (id : ℕ)
    → length ip_port ≤ 21
    → conn_name name ip_port id ≡ name ++ 45 ∷ (ip_port ++ 35 ∷ int_digits id)
unfolding conn_name
conn_name_whole name ip_port id short = ap (◌++◌ name) (
    take_all 63 (45 ∷ (ip_port ++ 35 ∷ int_digits id))
      (omega (arith, length-append ip_port (35 ∷ int_digits id), length-decimal 9 id)))

pub conn_name_injective :
    (name ip_port : List ℕ) (a b : ℕ)
    → length ip_port ≤ 21
    → a < 2 ^ 31
    → b < 2 ^ 31
    → conn_name name ip_port a ≡ conn_name name ip_port b
    → a ≡ b
conn_name_injective name ip_port a b short ha hb same =
    let whole : name ++ 45 ∷ (ip_port ++ 35 ∷ int_digits a)
        ≡ name ++ 45 ∷ (ip_port ++ 35 ∷ int_digits b) =
      sym (conn_name_whole name ip_port a short) ∙ same ∙ conn_name_whole name ip_port b short in
    let back = append_cancel (35 ∷ []) (int_digits a) (int_digits b) (
      append_cancel ip_port (35 ∷ int_digits a) (35 ∷ int_digits b) (
        append_cancel (45 ∷ []) (ip_port ++ 35 ∷ int_digits a) (ip_port ++ 35 ∷ int_digits b) (
          append_cancel name (45 ∷ (ip_port ++ 35 ∷ int_digits a))
            (45 ∷ (ip_port ++ 35 ∷ int_digits b)) whole))) in
    decimal_injective 9 a b (omega arith) (omega arith) back

-- Names are the same where their numbers are.
pub is_text-conn_name :
    (name ip_port : List ℕ) (a b : ℕ)
    → length ip_port ≤ 21
    → a < 2 ^ 31
    → b < 2 ^ 31
    → is_text (conn_name name ip_port a) (conn_name name ip_port b) ≡ (a == b)
is_text-conn_name name ip_port a b short ha hb =
    elim (Bool-cases (is_text (conn_name name ip_port a) (conn_name name ip_port b))) [
      | inl same ↦
          let e =
            conn_name_injective name ip_port a b short ha hb
              (is_text-same (conn_name name ip_port a) (conn_name name ip_port b) same) in
          same ∙ ground (arith, e)
      | inr other ↦ elim (Bool-cases (a == b)) [
        | inl e ↦
            let equal : a ≡ b = ground (arith, e) in
            let same : is_text (conn_name name ip_port a) (conn_name name ip_port b) ≡ true =
              rw equal (is_text_refl (conn_name name ip_port b)) in
            same ∙ sym e
        | inr ne ↦ other ∙ sym ne
      ]
    ]
