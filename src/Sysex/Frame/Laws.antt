-- ===== src/Sysex/Frame/Laws.antt =====
-- What the frame checks accept.
use unitor_win64_driver.Base.{
  ℕ, ◌+◌, ◌≤◌, ◌<◌, ◌≡◌, refl, ◌↔◌, true, false, some, [], ◌∷◌, arith, Bytes, ok, leb, length,
  but_last, any, length-append, but_last-concat, last_or-concat, but_last-append-last,
}
use unitor_win64_driver.Sysex.Frame.{
  framed, IsData, bad_ends, is_patch_dump, is_master_dump, load_fixture, send_sysex,
  patch_dump_request,
}

pub length-framed : (body : Bytes) → length (framed body) ≡ length body + 2
length-framed body = omega (arith, length-append body (0xF7 ∷ []))

-- At least two bytes with the right ends are a framed body.
framed-but_last :
    (b c : ℕ) (cs : Bytes) → bad_ends (b ∷ c ∷ cs) ≡ false → b ∷ c ∷ cs ≡ framed (but_last (c ∷ cs))
framed-but_last b c cs h = ground (arith, but_last-append-last 0 c cs)

send_sysex-framed : (body : Bytes) → send_sysex (framed body) ≡ ok body
unfolding send_sysex
send_sysex-framed body =
    ground (arith, length-framed body, last_or-concat 0xF0 0xF7 body, but_last-concat 0xF7 body)

send_sysex→framed : (payload body : Bytes) → send_sysex payload ≡ ok body → payload ≡ framed body
unfolding send_sysex
send_sysex→framed [] body h = ground arith
send_sysex→framed (b ∷ []) body h = ground arith
send_sysex→framed (b ∷ c ∷ cs) body h = ground (arith, framed-but_last b c cs)

-- `send_sysex` hands `body` to mido exactly when the payload is F0, `body`, F7.
pub send_sysex_iff :
    (payload body : Bytes) → (send_sysex payload ≡ ok body) ↔ (payload ≡ framed body)
send_sysex_iff payload body = (send_sysex→framed payload body, λ e. rw e (send_sysex-framed body))

-- A frame that the check of the long loopback fixture lets pass
any-IsData : (bs : Bytes) → any (λ b. leb 0x80 b) bs ≡ false → IsData bs
any-IsData [] h = tt
any-IsData (b ∷ bs) h = ground (arith, any-IsData bs)

pub IsData-any : (bs : Bytes) → IsData bs → any (λ b. leb 0x80 b) bs ≡ false
IsData-any [] h = refl
IsData-any (b ∷ bs) h = ground (arith, IsData-any bs h.1)

-- The frames of the long loopback: seven-bit bytes between F0 and F7, one at least
pub record IsDataFrame (bytes : Bytes) : Type 0 where
  pub body : Bytes
  pub is_framed : bytes ≡ framed body
  pub not_empty : 1 ≤ length body
  pub is_data : IsData body

load_fixture→IsDataFrame :
    (bytes : Bytes) {out : Bytes}
    → load_fixture (some bytes) ≡ ok out
    → (out ≡ bytes) × IsDataFrame bytes
unfolding load_fixture
load_fixture→IsDataFrame [] h = absurd (ground arith)
load_fixture→IsDataFrame (b ∷ []) h = absurd (ground arith)
load_fixture→IsDataFrame (b ∷ c ∷ []) h = absurd (ground arith)
load_fixture→IsDataFrame (b ∷ c ∷ d ∷ cs) h =
    let body = but_last (c ∷ d ∷ cs) in
    (
      ground arith,
      record {
        body = body;
        is_framed = ground (arith, framed-but_last b c (d ∷ cs));
        not_empty = omega arith;
        is_data = any-IsData body (ground arith);
      },
    )

load_fixture-framed :
    (body : Bytes)
    → 1 ≤ length body
    → IsData body
    → load_fixture (some (framed body)) ≡ ok (framed body)
unfolding load_fixture
load_fixture-framed body n d = ground (
  arith,
  length-framed body,
  last_or-concat 0xF0 0xF7 body,
  but_last-concat 0xF7 body,
  IsData-any body d,
)

-- The fixture of the long loopback is accepted exactly when it is F0, one or more bytes below 80,
-- and F7; it is then returned as it stands in the file.
pub load_fixture_iff :
    (bytes out : Bytes) → (load_fixture (some bytes) ≡ ok out) ↔ ((out ≡ bytes) × IsDataFrame bytes)
load_fixture_iff bytes out = (
  load_fixture→IsDataFrame bytes,
  λ h. rw (h.0, h.1.is_framed) (load_fixture-framed h.1.body h.1.not_empty h.1.is_data),
)

-- A dump of one kind is never taken for a dump of the other.
is_patch_dump-is_master_dump :
    (bytes : Bytes) → is_patch_dump bytes ≡ true → is_master_dump bytes ≡ false
unfolding is_patch_dump is_master_dump
is_patch_dump-is_master_dump bytes h = ground arith

-- A dump request is built exactly for a slot below 80 hex, and it is the request that `send_sysex`
-- turns into the payload 10 06 04 01 and the slot.
pub patch_dump_request_lem :
    (slot : ℕ) (request : Bytes)
    → (patch_dump_request slot ≡ ok request)
      ↔ ((slot < 0x80) × (send_sysex request ≡ ok (0x10 ∷ 0x06 ∷ 0x04 ∷ 0x01 ∷ slot ∷ [])))
unfolding patch_dump_request
patch_dump_request_lem slot request = (
  λ h. (ground arith, (send_sysex_iff request _).1 (ground arith)),
  λ h. ground (arith, (send_sysex_iff request _).0 h.1),
)
