-- ===== src/TcpConnection/Stream.antt =====
-- Every byte that a connection accepts goes to the socket once and in order: what the socket took
-- and what waits in the output buffer always make up what was accepted.
pub mod Send
pub mod Drain
use ouge_net_lib.Common.{
  ℕ, ◌≤◌, ◌≡◌, refl, sym, ap, ◌∙◌, Bool, false, ◌&&◌, ◌||◌, List, [], ◌∷◌, ◌++◌, append_assoc,
  length, ltb, ◌==◌, if◌then◌else◌, Result, ok,
}
use ouge_net_lib.Buffer.{Buffer}
use ouge_net_lib.Buffer.Valid.{contents}
use ouge_net_lib.Buffer.Valid
use ouge_net_lib.Channel.{is_writing}
use ouge_net_lib.Channel.Masks.{Waits}
use ouge_net_lib.TcpConnection.{Connection, Effect, wrote, is_disconnected, Done}
use ouge_net_lib.TcpConnection.Output.{
  WriteResult, taken, failed, errno_epipe, errno_econnreset, is_idle,
}

-- The bytes that went to the socket.
abbrev pub wire : List Effect → List ℕ
wire [] = []
wire (wrote bytes ∷ es) = bytes ++ wire es
wire (e ∷ es) = wire es

pub wire-append : (es fs : List Effect) → wire (es ++ fs) ≡ wire es ++ wire fs
wire-append [] fs = refl
wire-append (wrote bytes ∷ es) fs =
    ap (◌++◌ bytes) (wire-append es fs) ∙ sym (append_assoc bytes (wire es) (wire fs))
wire-append (e ∷ es) fs = wire-append es fs

-- The buffers are well-formed, the events are those of two flags, and while the connection is not
-- down the channel waits to write exactly while bytes wait to go out.
pub record IsValid (c : Connection) : Type 0 where
  pub input : Valid.IsValid c.input_buffer
  pub output : Valid.IsValid c.output_buffer
  pub flags : (r w : Bool) × Waits c.channel r w
  pub writing :
      is_disconnected c.state ≡ false
      → is_writing c.channel ≡ ltb 0 (length (contents c.output_buffer))

-- The operation succeeds; what it gave to the socket, with what then waits, is what waited before
-- with `bytes` behind it.
abbrev pub Streams : Result Done → Connection → List ℕ → Type 0
Streams r c bytes =
    (c' : Connection) × (es : List Effect) × (r ≡ ok (c', es))
    × IsValid c'
    × (c'.state ≡ c.state)
    × (wire es ++ contents c'.output_buffer ≡ contents c.output_buffer ++ bytes)

-- The socket takes no more than it is given.
abbrev pub Respects : WriteResult → ℕ → Type 0
Respects (taken n) len = n ≤ len
Respects (failed errno) len = Unit {0}

-- EPIPE or ECONNRESET
abbrev pub is_broken : WriteResult → Bool
is_broken (taken n) = false
is_broken (failed errno) = errno == errno_epipe || errno == errno_econnreset

-- What `sendInLoop` accepts: nothing once the connection is down, or where the socket turns out to be
-- broken at the write that it tries at once; and else all bytes.
abbrev pub accepted : List ℕ → WriteResult → Connection → List ℕ
accepted bytes w c =
    if is_disconnected c.state then [] else if is_idle c && is_broken w then [] else bytes
