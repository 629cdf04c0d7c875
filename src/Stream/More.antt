-- ===== src/Stream/More.antt =====
-- Reads of a stream with more bytes behind it.
use warpyard.Base.{
  ℕ, ◌+◌, ◌≤◌, false, some, ◌++◌, ◌≡◌, arith, take, drop, length-append, length-drop,
  take-append_le, drop-append_le,
}
use warpyard.Stream.{Stream, wait, shift, shift_bytes, big_endian}

pub wait-append : (q more : Stream) (n : ℕ) → wait q n ≡ false → wait (q ++ more) n ≡ false
wait-append q more n h = ground (arith, length-append q more)

-- A reader that does not have to wait has its bytes.
pub shift_bytes-some :
    (n : ℕ) (q : Stream) → wait q n ≡ false → shift_bytes n q ≡ some (take n q, drop n q)
unfolding shift_bytes
shift_bytes-some n q h = ground arith

pub shift-some :
    (n : ℕ) (q : Stream) → wait q n ≡ false → shift n q ≡ some (big_endian (take n q), drop n q)
unfolding shift
shift-some n q h = ground arith

pub take-more : (n : ℕ) (q more : Stream) → wait q n ≡ false → take n (q ++ more) ≡ take n q
take-more n q more h = take-append_le n q more (ground arith)

pub drop-more : (n : ℕ) (q more : Stream) → wait q n ≡ false → drop n (q ++ more) ≡ drop n q ++ more
drop-more n q more h = drop-append_le n q more (ground arith)

-- What is left after a read is long enough for the next one.
pub wait-drop : (m n : ℕ) (q : Stream) → wait q (m + n) ≡ false → wait (drop m q) n ≡ false
wait-drop m n q h = ground (arith, length-drop m q)

pub wait-le : (m n : ℕ) (q : Stream) → m ≤ n → wait q n ≡ false → wait q m ≡ false
wait-le m n q le h = ground arith
