-- ===== src/Utf8/Codec.antt =====
-- The forward operations of `utf8_codec` in
-- implementation/common/codecs/text/unicode/utf8/utf8.cpp: `step`, `count`, `count_new_line`,
-- `put_cp` and `decode`. A byte is a number below 256, and an `s32` is its 32-bit pattern.
use Prim.Native.Nat.{bit_or}
use ewlibs.Base.{
  ℕ, ◌+◌, ◌*◌, ◌/◌, ◌%◌, ◌^◌, Bool, true, false, Option, none, some, List, [], ◌∷◌, ◌&&◌, ◌||◌, not,
  ltb, leb, ◌==◌, if◌then◌else◌, ◌>>=◌,
}
use ewlibs.Base.Memory.{Memory}
use ewlibs.Utf8.Table.{s0, error, init_states, init_masks}

-- `STATE` and `utf8_mask_table`.
pub record Tables : Type 0 where
  pub states : Memory
  pub masks : Memory

-- `init`, over what the two allocations held before.
unfoldable pub init : Memory → Memory → Tables
init states masks = record { states = init_states states; masks = init_masks masks }

-- `STATE[i]`: the table has 256 * 8 slots, and a read past them is a fault.
unfoldable pub read_state : Tables → ℕ → Option ℕ
read_state t i = if ltb i 2048 then some (t.states i) else none

-- `utf8_decode_step(B, S, CP)`: the new state and the new code point.
unfoldable pub step : Tables → ℕ → ℕ × ℕ → Option (ℕ × ℕ)
step t byte (state, cp) = do
  state' ← read_state t (256 * state + byte)
  some (state', bit_or (cp * 64 % 2 ^ 32) (t.masks byte))

-- The locals of `utf8_codec::count`. The buffer is at most 2 ^ 32 - 1 bytes long (`len` is a
-- `u32`), so no counter wraps.
pub record Counting : Type 0 where
  pub s : ℕ
  pub unic : ℕ
  pub n_ok : ℕ
  pub n_error : ℕ
  pub local_count : ℕ

abbrev pub is_nil : List ℕ → Bool
is_nil [] = true
is_nil (_ ∷ _) = false

-- What the loop of `count` does with one decoded step; `rest` is the buffer after the byte.
unfoldable pub tally : ℕ → List ℕ → Counting → ℕ × ℕ → Counting
tally c rest k (s, unic) =
    if s == s0
    then record {
      s = s0;
      unic = 0;
      n_ok = k.n_ok + 1;
      n_error = k.n_error;
      local_count = (if unic == c then k.local_count + 1 else k.local_count);
    }
    else if s == error
    then record k {
      s = (if is_nil rest then s else s0);
      unic = (if is_nil rest then unic else 0);
      n_error = k.n_error + 1;
    }
    else record k { s = s; unic = unic }

unfoldable pub count_loop : Tables → ℕ → List ℕ → Counting → Option Counting
count_loop t c [] k = some k
count_loop t c (b ∷ rest) k = do r ← step t b (k.s, k.unic); count_loop t c rest (tally c rest k r)

-- The values that `count` returns: 0, -1 and -2.
pub data Verdict : Type 0 where
  complete erroneous truncated : Verdict

pub record Counts : Type 0 where
  pub nr_ok : ℕ
  pub nr_error : ℕ
  pub nr_count : ℕ
  pub verdict : Verdict

abbrev pub verdict_of : ℕ → Verdict
verdict_of s = if s == error then erroneous else if s == s0 then complete else truncated

abbrev pub start : Counting
start = record { s = s0; unic = 0; n_ok = 0; n_error = 0; local_count = 0 }

abbrev pub finish : Counting → Counts
finish k = record {
  nr_ok = k.n_ok;
  nr_error = k.n_error;
  nr_count = k.local_count;
  verdict = verdict_of k.s;
}

-- `utf8_codec::count`; `next` is the end of the buffer on every path.
unfoldable pub count : Tables → List ℕ → ℕ → Option Counts
count t buffer c = do k ← count_loop t c buffer start; some (finish k)

abbrev pub cr : ℕ
cr = 13

abbrev pub lf : ℕ
lf = 10

-- One byte of `count_new_line`: what it adds to the counter.
unfoldable pub new_line : ℕ → ℕ → ℕ
new_line prev b = if b == cr then 1 else if (b == lf) && not (prev == cr) then 1 else 0

-- `utf8_codec::count_new_line`: the previous byte and the counter, both updated.
unfoldable pub count_new_line : List ℕ → ℕ → ℕ → ℕ × ℕ
count_new_line [] prev counter = (prev, counter)
count_new_line (b ∷ rest) prev counter = count_new_line rest b (counter + new_line prev b)

-- What `put_cp` leaves: its result, the bytes that it writes from `utf8[0]` on, and `*sz`.
pub record Put : Type 0 where
  pub done : Bool
  pub bytes : List ℕ
  pub sz : ℕ

abbrev failed : ℕ → Put
failed sz = record { done = false; bytes = []; sz = sz }

-- A value that is stored into a `u8`.
abbrev pub to_u8 : ℕ → ℕ
to_u8 x = x % 256

-- `utf8_codec::put_cp` at the 32-bit pattern of the code point; `sz` is the room on entry.
unfoldable pub put_cp : ℕ → ℕ → Put
put_cp cp sz =
    if leb (2 ^ 31) cp || ltb cp 0x80
    then if ltb sz 2 then failed sz else record { done = true; bytes = (cp % 128) ∷ 0 ∷ []; sz = 1 }
    else if ltb cp 0x800
    then if ltb sz 3 then failed sz else record {
      done = true;
      bytes = to_u8 (bit_or 0xc0 (cp / 64)) ∷ to_u8 (bit_or 0x80 (cp % 64)) ∷ 0 ∷ [];
      sz = 2;
    }
    else if ltb cp 0xffff
    then if ltb sz 4 then failed sz else record {
      done = true;
      bytes =
          to_u8 (bit_or 0xe0 (cp / 4096))
          ∷ to_u8 (bit_or 0x80 (cp / 64))
          ∷ to_u8 (bit_or 0x80 (cp % 64))
          ∷ 0
          ∷ [];
      sz = 3;
    }
    else if ltb cp 0x10ffff
    then if ltb sz 5 then failed sz else record {
      done = true;
      bytes =
          to_u8 (bit_or 0xf0 (cp / 2 ^ 18))
          ∷ to_u8 (bit_or 0x80 (cp / 4096))
          ∷ to_u8 (bit_or 0x80 (cp / 64))
          ∷ to_u8 (bit_or 0x80 (cp % 64))
          ∷ 0
          ∷ [];
      sz = 4;
    }
    else failed sz

-- `decode`: the bytes before the first zero are stepped through, and counted.
unfoldable pub decode_loop : Tables → List ℕ → ℕ → ℕ → ℕ → Option ℕ
decode_loop t [] cp state len = some len
decode_loop t (b ∷ rest) cp state len = elim (b == 0) [
  | true ↦ some len
  | false ↦ step t b (state, cp) >>= λ r.
      decode_loop t rest (if (r.0 == s0) || (r.0 == error) then 0 else r.1)
        (if r.0 == error then s0 else r.0) (len + 1)
]

unfoldable pub decode : Tables → List ℕ → Option ℕ
decode t s = decode_loop t s 0 s0 0
