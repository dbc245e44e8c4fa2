-- ===== src/Header/Ipv4/ReadBack.antt =====
-- The text of an address in netzer-core/src/ipv4.rs is read back as the address.
use net_zer.Prelude.{
  ℕ, Bytes, length, ◌≡◌, suc, ◌∷◌, [], arith, append-nil, zero, ap, refl, All, ◌<◌, All-append,
}
use net_zer.Text.Decimal.{decimal}
use net_zer.Text.Decimal.ReadBack.{read_digits, read_digits-decimal, IsAscii-decimal}
use net_zer.Header.Ipv4.{Ipv4Address, dot_separated, ipv4_text}

abbrev after_dot : Bytes → Bytes
after_dot [] = []
after_dot (c ∷ cs) = cs

-- `n` numbers in decimal, each with a byte behind it, which the last one may lack.
pub read_numbers : ℕ → Bytes → Bytes
read_numbers zero text = []
read_numbers (suc n) text =
    let (value, rest) = read_digits 0 text in value ∷ read_numbers n (after_dot rest)

read_numbers-dot_separated :
    (b : ℕ) (bs : Bytes) → read_numbers (suc (length bs)) (dot_separated (b ∷ bs)) ≡ b ∷ bs
unfolding read_numbers dot_separated
read_numbers-dot_separated b [] =
    rw (← append-nil (decimal b)) (rw (read_digits-decimal b [] tt) refl)
read_numbers-dot_separated b (c ∷ cs) =
    rw (read_digits-decimal b (b'.' ∷ dot_separated (c ∷ cs)) refl)
      (ap (◌∷◌ b) (read_numbers-dot_separated c cs))

-- The text of an address of four bytes is read back as those bytes, by a reader of four numbers in
-- decimal with a byte between two of them.
pub read_numbers-ipv4_text :
    (address : Ipv4Address)
    → length address.octets ≡ 4
    → read_numbers 4 (ipv4_text address) ≡ address.octets
unfolding ipv4_text
read_numbers-ipv4_text address four = whole address.octets four
  where
    whole : (bs : Bytes) → length bs ≡ 4 → read_numbers 4 (dot_separated bs) ≡ bs
    whole [] e = absurd (omega arith)
    whole (b ∷ bs) e = rw (← e) (read_numbers-dot_separated b bs)

IsAscii-dot_separated : (bs : Bytes) → All (λ c. c < 128) (dot_separated bs)
unfolding dot_separated
IsAscii-dot_separated [] = tt
IsAscii-dot_separated (b ∷ []) = IsAscii-decimal b
IsAscii-dot_separated (b ∷ c ∷ bs) =
    All-append (λ c. c < 128) (decimal b) (b'.' ∷ dot_separated (c ∷ bs)) (IsAscii-decimal b)
      (omega arith, IsAscii-dot_separated (c ∷ bs))

pub IsAscii-ipv4_text : (address : Ipv4Address) → All (λ c. c < 128) (ipv4_text address)
unfolding ipv4_text
IsAscii-ipv4_text address = IsAscii-dot_separated address.octets
