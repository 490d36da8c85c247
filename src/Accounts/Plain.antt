-- ===== src/Accounts/Plain.antt =====
-- Tokens and hashes in plain text, for the examples: what the sign-in relies on can hold.
use Prim.Native.Char.{Char}
use native.Mathlib.Omega.{arith}
use pickwise_v2_backend.Prelude.{
  write_text, read_text, read-write, unary, size, size-unary, ℕ, suc, ◌≡◌, refl, ap, inl, inr,
  Bool-cases, Bool, false, Option, none, some, String, str_eq, eq_iff, ltb, if◌then◌else◌,
}
use pickwise_v2_backend.Accounts.Tokens.{Payload, Security, IsSound}

abbrev write_option : Option String → String
write_option none = ""
write_option (some s) = String.◌∷◌ "+" s

abbrev read_option : String → Option String
read_option String.[] = none
read_option (String.◌∷◌ c s) = some s

read-write_option : (o : Option String) → read_option (write_option o) ≡ o
read-write_option none = refl
read-write_option (some s) = refl

abbrev after {ℓ} : {A : Type ℓ} → Option (String × String) → (String → String → Option A) → Option A
after none next = none
after (some (s, rest)) next = next s rest

abbrev encode_plain : Payload → String
encode_plain p = write_text (write_option p.sub) (
    write_text (unary p.exp)
      (write_text (write_option p.scope) (write_text (write_option p.fp) "")))

abbrev payload_of : String → String → String → String → Payload
payload_of sub exp scope fp = record {
  sub = read_option sub;
  exp = size exp;
  scope = read_option scope;
  fp = read_option fp;
}

abbrev parse_plain : String → Option Payload
parse_plain token = after (read_text token) (λ sub r. after (read_text r) (λ exp r'.
    after (read_text r')
      (λ scope r''. after (read_text r'') (λ fp end. some (payload_of sub exp scope fp)))))

abbrev unexpired : ℕ → Option Payload → Option Payload
unexpired now none = none
unexpired now (some p) = if ltb now p.exp then some p else none

parse-encode : (p : Payload) → parse_plain (encode_plain p) ≡ some p
parse-encode p =
    rw
      (
        read-write (write_option p.sub) (
            write_text (unary p.exp)
              (write_text (write_option p.scope) (write_text (write_option p.fp) ""))),
        read-write (unary p.exp)
            (write_text (write_option p.scope) (write_text (write_option p.fp) "")),
        read-write (write_option p.scope) (write_text (write_option p.fp) ""),
        read-write (write_option p.fp) "",
        read-write_option p.sub,
        size-unary p.exp,
        read-write_option p.scope,
        read-write_option p.fp,
      )
      refl

abbrev is_text_of : String → Option (String × String) → Bool
is_text_of password none = false
is_text_of password (some (s, rest)) = str_eq s password

-- The salt stands behind the password.
abbrev pub plain : Security
plain = record {
  hash = λ salt password. write_text password (unary salt);
  verify = λ password hashed. is_text_of password (read_text hashed);
  digest = String.◌∷◌ "+";
  encode = encode_plain;
  decode = λ now token. unexpired now (parse_plain token);
}

cons_ne : (c : Char) (s : String) → str_eq (String.◌∷◌ c s) "" ≡ false
cons_ne c s = elim (Bool-cases (str_eq (String.◌∷◌ c s) "")) [
  | inl same ↦
      let e : suc (size s) ≡ 0 = ap size ((eq_iff (String.◌∷◌ c s) "").0 same) in
      absurd (omega (arith, e))
  | inr other ↦ other
]

write_text_ne : (s rest : String) → str_eq (write_text s rest) "" ≡ false
write_text_ne String.[] rest = cons_ne "." rest
write_text_ne (String.◌∷◌ c s) rest = cons_ne "," (String.◌∷◌ c (write_text s rest))

pub plain-IsSound : IsSound plain
plain-IsSound = record {
  decode-encode = λ now p valid. rw (parse-encode p, valid) refl;
  decode_expired = λ now p expired. rw (parse-encode p, expired) refl;
  verify-hash =
      λ salt password. rw (read-write password (unary salt)) ((eq_iff password password).1 refl);
  hash_text = λ salt password. write_text_ne password (unary salt);
  digest_text = cons_ne "+";
}
