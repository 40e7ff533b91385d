-- ===== src/Disk/Words.antt =====
-- What src/encodemem.c `next_token` and the lines of a `fromtext` take from the text.
use jaris.Base.{
  ℕ, suc, ◌<◌, ◌≤◌, ◌≡◌, refl, subst, arith, Bool, true, false, not, List, [], ◌∷◌, length, drop,
  length-drop, ◌==◌, Option, none, some, some_injective, Bool-cases, inl, inr,
}
use jaris.Base.Outcome.{ok, ◌>>=◌, lift}
use jaris.Assemble.Lex.{isspace, span, codes}
use jaris.Assemble.Lex.Shorter.{span-length}
use jaris.Disk.Directory.{end_word, next_token, given_word, starts_with, cons_text, text_lines}
use jaris.Disk.Keeps.{Ends, ends, ends_failed, Ends->>=, Ends-mono}

-- A word that is read shortens the text.
unfoldable pub Shortens : ℕ → Option (List ℕ) × List ℕ → Type 0
Shortens n (none, buffer) = length buffer ≤ n
Shortens n (some word, buffer) = length buffer < n

Shortens-mono : (n m : ℕ) (r : Option (List ℕ) × List ℕ) → n ≤ m → Shortens n r → Shortens m r
unfolding Shortens
Shortens-mono n m (none, buffer) h s = omega (arith, h, s)
Shortens-mono n m (some word, buffer) h s = omega (arith, h, s)

end_word-Ends : (n : ℕ) (p : List ℕ × List ℕ) → length p.1 < n → Ends (Shortens n) (end_word p)
unfolding end_word Shortens
end_word-Ends n (image, []) h = ends_failed
end_word-Ends n (image, c ∷ rest) h = ends _ h

span-head :
    (test : ℕ → Bool) (c : ℕ) (l : List ℕ) → test c ≡ true → length (span test (c ∷ l)).1 ≤ length l
unfolding span
span-head test c l e = rw e (span-length test l)

pub next_token-Ends : (buffer : List ℕ) → Ends (Shortens (length buffer)) (next_token buffer)
unfolding next_token Shortens
next_token-Ends [] = ends _ (omega arith)
next_token-Ends (c ∷ buffer) = elim (Bool-cases (isspace c)) [
  | inl p ↦ rw p (
      Ends-mono _ _ (next_token buffer)
        (λ r s. Shortens-mono (length buffer) (suc (length buffer)) r (omega arith) s)
        (next_token-Ends buffer))
  | inr p ↦ rw p (
      end_word-Ends (suc (length buffer)) _
        (omega (arith, span-head (λ c. not (isspace c)) c buffer (rw p refl))))
]

pub given_word-Ends :
    (buffer : List ℕ)
    → Ends (λ (r : List ℕ × List ℕ). length r.1 < length buffer) (given_word buffer)
unfolding given_word Shortens
given_word-Ends buffer =
    Ends->>= (Shortens (length buffer)) _ (next_token buffer) _ (next_token-Ends buffer) given
  where
    given :
        (r : Option (List ℕ) × List ℕ)
        → Shortens (length buffer) r
        → Ends (λ (r : List ℕ × List ℕ). length r.1 < length buffer) (lift r.0 >>= λ w. ok (w, r.1))
    given (none, rest) s = ends_failed
    given (some word, rest) s = ends _ s

cons_text-length :
    (c n : ℕ) (o : Option (List ℕ × List ℕ)) (text rest : List ℕ)
    → ((text rest : List ℕ) → o ≡ some (text, rest) → length rest ≤ n)
    → cons_text c o ≡ some (text, rest)
    → length rest ≤ n
cons_text-length c n none text rest h e = cc
cons_text-length c n (some (t, r)) text rest h e =
    subst (λ (p : List ℕ × List ℕ). length p.1 ≤ n) (some_injective e) (h t r refl)

pub text_lines-length :
    (b : Bool) (buffer text rest : List ℕ)
    → text_lines b buffer ≡ some (text, rest)
    → length rest ≤ length buffer
unfolding text_lines
text_lines-length b [] text rest e = cc
text_lines-length false (c ∷ buffer) text rest e =
    omega
      (arith, cons_text-length c (length buffer) _ text rest (text_lines-length (c == 10) buffer) e)
text_lines-length true (c ∷ buffer) text rest e =
    starts (starts_with (codes "__endtext") (c ∷ buffer)) (text_lines-length (c == 10) buffer) e
  where
    starts :
        (b : Bool)
        → ((text rest : List ℕ)
            → text_lines (c == 10) buffer ≡ some (text, rest)
            → length rest ≤ length buffer)
        → elim b as (λ _. Option (List ℕ × List ℕ)) [
          | true ↦ some ([], drop 8 buffer)
          | false ↦ cons_text c (text_lines (c == 10) buffer)
        ]
          ≡ some (text, rest)
        → length rest ≤ suc (length buffer)
    starts true h e =
        subst (λ (p : List ℕ × List ℕ). length p.1 ≤ suc (length buffer)) (some_injective e)
          (omega (arith, length-drop 8 buffer))
    starts false h e = omega (arith, cons_text-length c (length buffer) _ text rest h e)
