-- ===== src/Buffer/Examples.antt =====
-- The theorems on `Buffer` and on byte orders at concrete buffers, and runs of the operations.
use ouge_net_lib.Common.{
  ℕ, ◌≡◌, refl, inl, inr, List, [], ◌∷◌, ◌++◌, arith, take, replicate, ok, read_at, copy_to, some,
}
use ouge_net_lib.Endian.{little, of_memory, network_to_host, le_bytes}
use ouge_net_lib.Endian.Wire.{wire, network_to_host-of_memory}
use ouge_net_lib.Buffer.{Buffer, make_space, shrink}
use ouge_net_lib.Buffer.Valid.{IsValid, contents, Yields}
use ouge_net_lib.Buffer.Grow.{MakesRoom, make_space-MakesRoom}
use ouge_net_lib.Buffer.Shrink.{kept, shrink_lem}
use ouge_net_lib.Buffer.Ints.{append_int, read_int, read_int-append_int}
use ouge_net_lib.Buffer.Search.{LineFound, search_crlf, find_crlf, find_crlf-LineFound}
use ouge_net_lib.Buffer.Refine.{put, get, unput, clear, replies, queue_replies, replies_refines}

-- "hi\r\n" behind the reserved prefix, and four free bytes.
abbrev line : Buffer
line = record {
  buffer = replicate 8 0 ++ 104 ∷ 105 ∷ 13 ∷ 10 ∷ 0 ∷ 0 ∷ 0 ∷ 0 ∷ [];
  reader_index = 8;
  writer_index = 12;
}

line-IsValid : IsValid line
line-IsValid = omega arith

-- Six bytes have been read, and two are left.
abbrev late : Buffer
late = record { buffer = replicate 14 7 ++ 104 ∷ 105 ∷ []; reader_index = 14; writer_index = 16 }

late-IsValid : IsValid late
late-IsValid = omega arith

abbrev empty : Buffer
empty = record { buffer = replicate 16 0; reader_index = 8; writer_index = 8 }

empty-IsValid : IsValid empty
empty-IsValid = omega arith

-- The unread bytes move to the front where that makes room enough.
compacts :
    make_space 5 late
    ≡ ok (record {
      buffer = replicate 8 7 ++ 104 ∷ 105 ∷ replicate 4 7 ++ 104 ∷ 105 ∷ [];
      reader_index = 8;
      writer_index = 10;
    })
unfolding make_space read_at copy_to
compacts = refl

finds : find_crlf line ≡ some 10
unfolding find_crlf search_crlf
finds = refl

replies_refines_example :
    replies (put (1 ∷ 2 ∷ []) ∷ get 3 ∷ unput 1 ∷ clear ∷ []) line
    ≡ queue_replies (put (1 ∷ 2 ∷ []) ∷ get 3 ∷ unput 1 ∷ clear ∷ []) (contents line)
replies_refines_example =
    replies_refines (put (1 ∷ 2 ∷ []) ∷ get 3 ∷ unput 1 ∷ clear ∷ []) line-IsValid (omega arith)

make_space-MakesRoom_example : MakesRoom (make_space 5 late) 5 late
make_space-MakesRoom_example =
    make_space-MakesRoom 5 late-IsValid (omega arith) (omega arith) (inr (omega arith))

shrink_lem_example : Yields (shrink 0 line) (take (kept line) (contents line))
shrink_lem_example = shrink_lem 0 line-IsValid (omega arith) (omega arith)

find_crlf-LineFound_example : LineFound line
find_crlf-LineFound_example = find_crlf-LineFound line-IsValid

-- Six bytes arrive where the vector has room for four.
abbrev arrived : List ℕ
arrived = 1 ∷ 2 ∷ 3 ∷ 4 ∷ 5 ∷ 6 ∷ []

-- 0x1FF in two bytes, and "hi".
abbrev framed : Buffer
framed = record {
  buffer = replicate 8 0 ++ 1 ∷ 255 ∷ 104 ∷ 105 ∷ [];
  reader_index = 8;
  writer_index = 12;
}

framed-IsValid : IsValid framed
framed-IsValid = omega arith

framed-wire : contents framed ≡ wire 2 511 ++ 104 ∷ 105 ∷ []
unfolding le_bytes
framed-wire = refl

read_int-append_int_example :
    (b₁ b₂ : Buffer) × (append_int little 4 1000 empty ≡ ok b₁)
    × (read_int little 4 b₁ ≡ ok (1000, b₂))
    × (contents b₂ ≡ [])
read_int-append_int_example =
    read_int-append_int little 4 1000 empty-IsValid refl (omega arith) (omega arith)
      (inl (omega arith))

network_to_host-of_memory_example : network_to_host little 2 (of_memory little (wire 2 511)) ≡ 511
network_to_host-of_memory_example = network_to_host-of_memory little 2 511 (omega arith)
