-- ===== src/Bridge/Framing.antt =====
-- Messages on the standard input and output of the native messaging host: readMessage and
-- writeMessage of cmd/native-host/main.go.
use lunefetch.Base.{
  ℕ, ◌+◌, ◌*◌, ◌/◌, ◌%◌, ◌^◌, ◌≤◌, ◌<◌, ◌==◌, ◌≡◌, refl, ap, ◌∙◌, if◌then◌else◌, ltb, [], ◌∷◌, ◌++◌,
  Option, none, some, false, ◌||◌, length, take, drop, arith, Bool-cases, inl, inr,
}
use lunefetch.Bridge.{Bytes}

abbrev pub max_message_size : ℕ
max_message_size = 64 * 2 ^ 10

-- binary.Write of a uint32 in little endian.
unfoldable pub put_length : ℕ → Bytes
put_length n = n % 256 ∷ n / 256 % 256 ∷ n / 65536 % 256 ∷ n / 16777216 % 256 ∷ []

unfoldable pub write_message : Bytes → Bytes
unfolding put_length
write_message body = put_length (length body % 2 ^ 32) ++ body

-- io.ReadFull of `n` bytes, with what is left of the stream.
unfoldable pub read_full : ℕ → Bytes → Option (Bytes × Bytes)
read_full n stream = if ltb (length stream) n then none else some (take n stream, drop n stream)

abbrev pub read_body : ℕ → Bytes → Option (Bytes × Bytes)
read_body n stream = if n == 0 || ltb max_message_size n then none else read_full n stream

-- The message and the rest of the stream, or `none` for an error.
unfoldable pub read_message : Bytes → Option (Bytes × Bytes)
unfolding read_full
read_message (a ∷ b ∷ c ∷ d ∷ stream) = read_body (a + b * 256 + c * 65536 + d * 16777216) stream
read_message _ = none

take-append : (xs ys : Bytes) → take (length xs) (xs ++ ys) ≡ xs
take-append [] ys = refl
take-append (x ∷ xs) ys = ap (λ l. x ∷ l) (take-append xs ys)

drop-append : (xs ys : Bytes) → drop (length xs) (xs ++ ys) ≡ ys
drop-append [] ys = refl
drop-append (x ∷ xs) ys = drop-append xs ys

length-append-le : (xs ys : Bytes) → length xs ≤ length (xs ++ ys)
length-append-le [] ys = omega arith
length-append-le (x ∷ xs) ys = omega (arith, length-append-le xs ys)

length-digits :
    (n : ℕ)
    → n < 2 ^ 32
    → n % 256 + n / 256 % 256 * 256 + n / 65536 % 256 * 65536 + n / 16777216 % 256 * 16777216 ≡ n
length-digits n h = omega arith

read_full-append : (xs ys : Bytes) → read_full (length xs) (xs ++ ys) ≡ some (xs, ys)
unfolding read_full
read_full-append xs ys =
    let enough : ltb (length (xs ++ ys)) (length xs) ≡ false =
      ground (arith, length-append-le xs ys) in
    rw (enough, take-append xs ys, drop-append xs ys) refl

-- A message of at least one byte and at most 64 KiB that the host writes is read back whole, and the
-- reader stops right behind it; a longer one below 4 GiB, or an empty one, is refused.
pub read_message-write_message :
    (body stream : Bytes)
    → length body < 2 ^ 32
    → read_message (write_message body ++ stream) ≡ (
        if length body == 0 || ltb max_message_size (length body)
        then none
        else some (body, stream))
unfolding read_message write_message put_length
read_message-write_message body stream h =
    let small : length body % 2 ^ 32 ≡ length body = omega arith in
    rw small (
      ap (λ n. read_body n (body ++ stream)) (length-digits (length body) h)
      ∙ elim (Bool-cases (length body == 0 || ltb max_message_size (length body))) [
        | inl refused ↦ rw refused refl
        | inr fits ↦ rw fits (read_full-append body stream)
      ])
