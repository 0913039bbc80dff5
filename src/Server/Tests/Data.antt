-- ===== src/Server/Tests/Data.antt =====
-- A codec for hexadecimal strings, and a small fork behind the handlers, for the tests.
use pop_cli.Prelude.{
  ℕ, ◌+◌, ◌-◌, ◌*◌, ◌/◌, ◌%◌, ◌<◌, zero, suc, ◌≡◌, refl, ap, ◌&&◌, [], ◌∷◌, Option, none, some,
  arith, ltb, leb, nat_beq, if◌then◌else◌, All,
}
use pop_cli.Bytes.{Bytes, bytes_beq}
use pop_cli.Fork.Monad.{returns}
use pop_cli.Server.Hex.{Codec, IsCodec}
use pop_cli.Server.Backend.{ArchiveBlockchain}
use pop_cli.Server.ChainHead.Tasks.{TaskBackend}

abbrev digit : ℕ → ℕ
digit n = if ltb n 10 then 48 + n else 87 + n

abbrev value_of_digit : ℕ → Option ℕ
value_of_digit c =
    if leb 48 c && leb c 57
    then some (c - 48)
    else if leb 97 c && leb c 102
    then some (c - 87)
    else if leb 65 c && leb c 70
    then some (c - 55)
    else none

abbrev encode : Bytes → Bytes
encode [] = []
encode (b ∷ bs) = digit (b / 16) ∷ digit (b % 16) ∷ encode bs

abbrev join : Option ℕ → Option ℕ → Option Bytes → Option Bytes
join none b r = none
join (some a) none r = none
join (some a) (some b) none = none
join (some a) (some b) (some r) = some ((a * 16 + b) ∷ r)

abbrev decode : Bytes → Option Bytes
decode [] = some []
decode (a ∷ []) = none
decode (a ∷ b ∷ text) = join (value_of_digit a) (value_of_digit b) (decode text)

abbrev pub test_hex : Codec
test_hex = record { encode = encode; decode = decode }

value_of-digit : (n : ℕ) → n < 16 → value_of_digit (digit n) ≡ some n
value_of-digit n h = ground arith

decode-encode : (bytes : Bytes) → All (λ b. b < 256) bytes → decode (encode bytes) ≡ some bytes
decode-encode [] h = refl
decode-encode (b ∷ bs) h =
    rw
      (
        value_of-digit (b / 16) (omega arith),
        value_of-digit (b % 16) (omega arith),
        decode-encode bs h.1,
      )
      (ap (λ n. some (n ∷ bs)) (omega arith))

digits : (bytes : Bytes) → All (λ b. b < 256) bytes → All (λ c. c < b'x') (encode bytes)
digits [] h = tt
digits (b ∷ bs) h = (ground arith, (ground arith, digits bs h.1))

pub test_hex-IsCodec : IsCodec test_hex
test_hex-IsCodec = record { decode-encode = decode-encode; digits = digits }

-- Block 7 with hash `0x07…` holds 5 at key 1 and 6 at key 2; block 6 holds 4 at key 1 and 3 at key 3.
abbrev pub small_state : ℕ → Bytes → Option Bytes
small_state n key =
    if nat_beq n 7
    then (if bytes_beq key (1 ∷ [])
        then some (5 ∷ [])
        else if bytes_beq key (2 ∷ [])
        then some (6 ∷ [])
        else none)
    else (if bytes_beq key (1 ∷ [])
        then some (4 ∷ [])
        else if bytes_beq key (3 ∷ [])
        then some (3 ∷ [])
        else none)

abbrev repeat : ℕ → ℕ → Bytes
repeat zero x = []
repeat (suc n) x = x ∷ repeat n x

abbrev pub hash_of : ℕ → Bytes
hash_of n = repeat 32 n

-- `0x0707…`
abbrev pub text_of : ℕ → Bytes
text_of n = b'0' ∷ b'x' ∷ encode (hash_of n)

abbrev pub small_fork : ArchiveBlockchain
small_fork = record {
  World = Unit {0};
  head_number = λ w. returns 7 w;
  block_hash_at = λ n w. returns (some (hash_of n)) w;
  block_header = λ hash w. returns none w;
  block_body = λ hash w. returns (some ((9 ∷ []) ∷ [])) w;
  call_at_block = λ hash function parameters w. returns none w;
  block_number_by_hash =
      λ hash w. returns (if bytes_beq hash (hash_of 7) then some 7 else some 6) w;
  storage_at = λ n key w. returns (small_state n key) w;
  storage_keys_by_prefix = λ prefix hash w. returns [] w;
  block_parent_hash = λ hash w. returns (some (hash_of 6)) w;
}

abbrev pub small_tasks : TaskBackend
small_tasks = record {
  blockchain = small_fork;
  fork_point_number = 5;
  proxy_state_call = λ function parameters hash w. returns [] w;
  blake2_256 = λ bytes. bytes;
  hex = test_hex;
  capacity = 1;
}
