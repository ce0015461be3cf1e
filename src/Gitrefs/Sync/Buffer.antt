-- ===== src/Gitrefs/Sync/Buffer.antt =====
-- internal/gitrefs/sync.go: limitedBuffer, which keeps the first MiB of what git prints.
use forge_sync.Base.{
  ℕ, zero, suc, ◌-◌, ◌≤◌, ◌^◌, Bool, true, false, List, [], ◌∷◌, ◌++◌, ◌≡◌, refl, ◌∙◌, sym, ap,
  arith, ltb, if◌then◌else◌, length,
}

abbrev pub max_git_output : ℕ
max_git_output = 2 ^ 20

-- The bytes of the buffer.
pub record LimitedBuffer : Type 0 where
  pub buffer : List ℕ
  pub truncated : Bool

-- `value[:n]`, where `value` has no fewer than `n` bytes.
unfoldable pub first : ℕ → List ℕ → List ℕ
first zero value = []
first (suc n) [] = []
first (suc n) (b ∷ value) = b ∷ first n value

-- The buffer after a call of Write.
unfoldable pub write : LimitedBuffer → List ℕ → LimitedBuffer
write w value =
    let remaining = max_git_output - length w.buffer in
    if ltb 0 remaining
    then if ltb remaining (length value)
      then record { buffer = w.buffer ++ first remaining value; truncated = true }
      else record w { buffer = w.buffer ++ value }
    else record w { truncated = true }

unfoldable pub write_all : LimitedBuffer → List (List ℕ) → LimitedBuffer
write_all w [] = w
write_all w (value ∷ values) = write_all (write w value) values

abbrev pub empty_buffer : LimitedBuffer
empty_buffer = record { buffer = []; truncated = false }

-- All that was written.
abbrev pub concat : List (List ℕ) → List ℕ
concat [] = []
concat (value ∷ values) = value ++ concat values

append-nil : (xs : List ℕ) → xs ++ [] ≡ xs
append-nil [] = refl
append-nil (x ∷ xs) = ap (λ ys. x ∷ ys) (append-nil xs)

append_assoc : (xs ys zs : List ℕ) → (xs ++ ys) ++ zs ≡ xs ++ (ys ++ zs)
append_assoc [] ys zs = refl
append_assoc (x ∷ xs) ys zs = ap (λ ws. x ∷ ws) (append_assoc xs ys zs)

length-first : (n : ℕ) (xs : List ℕ) → length (first n xs) ≤ n
unfolding first
length-first zero xs = ground arith
length-first (suc n) [] = ground arith
length-first (suc n) (x ∷ xs) = ground (arith, length-first n xs)

first-short : (n : ℕ) (xs : List ℕ) → length xs ≤ n → first n xs ≡ xs
unfolding first
first-short zero [] h = refl
first-short zero (x ∷ xs) h = ground arith
first-short (suc n) [] h = refl
first-short (suc n) (x ∷ xs) h = ap (λ ys. x ∷ ys) (first-short n xs (ground arith))

minus_zero : (n : ℕ) → n ≡ n - 0
minus_zero n = ground arith

minus_suc : (m n : ℕ) → m - n ≡ suc m - suc n
minus_suc m n = ground arith

first-append :
    (n : ℕ) (xs ys : List ℕ) → first n (xs ++ ys) ≡ first n xs ++ first (n - length (first n xs)) ys
unfolding first
first-append zero xs ys = refl
first-append (suc n) [] ys = ap (λ k. first k ys) (minus_zero (suc n))
first-append (suc n) (x ∷ xs) ys =
    ap (λ zs. x ∷ zs)
      (first-append n xs ys
        ∙ ap (λ k. first n xs ++ first k ys) (minus_suc n (length (first n xs))))

first-zero : (n : ℕ) (xs : List ℕ) → n ≡ 0 → first n xs ≡ []
unfolding first
first-zero zero xs h = refl
first-zero (suc n) xs h = ground arith

write-buffer :
    (w : LimitedBuffer) (value : List ℕ)
    → (write w value).buffer ≡ w.buffer ++ first (max_git_output - length w.buffer) value
unfolding write
write-buffer w value = ground (
  arith,
  first-short (max_git_output - length w.buffer) value,
  first-zero (max_git_output - length w.buffer) value,
  append-nil w.buffer,
)

write_all-from :
    (w : LimitedBuffer) (all : List ℕ) (values : List (List ℕ))
    → w.buffer ≡ first max_git_output all
    → (write_all w values).buffer ≡ first max_git_output (all ++ concat values)
unfolding write_all
write_all-from w all [] h = h ∙ ap (first max_git_output) (sym (append-nil all))
write_all-from w all (value ∷ values) h =
    write_all-from (write w value) (all ++ value) values (
      write-buffer w value
      ∙ ap (λ b. b ++ first (max_git_output - length b) value) h
      ∙ sym (first-append max_git_output all value))
    ∙ ap (first max_git_output) (append_assoc all value (concat values))

-- However git's output is split into writes, the buffer holds the first MiB of it, and never more than
-- that.
pub write_all-first :
    (values : List (List ℕ))
    → ((write_all empty_buffer values).buffer ≡ first max_git_output (concat values))
      × (length (write_all empty_buffer values).buffer ≤ max_git_output)
unfolding first
write_all-first values =
    let p = write_all-from empty_buffer [] values refl in
    (p, rw p (length-first max_git_output (concat values)))

write-truncated :
    (w : LimitedBuffer) (value : List ℕ)
    → (write w value).truncated ≡ false
    → (w.truncated ≡ false) × ((write w value).buffer ≡ w.buffer ++ value)
unfolding write
write-truncated w value h = ground arith

write_all-truncated :
    (w : LimitedBuffer) (values : List (List ℕ))
    → (write_all w values).truncated ≡ false
    → (w.truncated ≡ false) × ((write_all w values).buffer ≡ w.buffer ++ concat values)
unfolding write_all
write_all-truncated w [] h = (h, sym (append-nil w.buffer))
write_all-truncated w (value ∷ values) h =
    let rest = write_all-truncated (write w value) values h in
    let now = write-truncated w value rest.0 in
    (
      now.0,
      rest.1 ∙ ap (λ b. b ++ concat values) now.1 ∙ append_assoc w.buffer value (concat values),
    )

-- If the buffer is not marked as truncated, it holds all that git has printed.
pub write_all_complete :
    (values : List (List ℕ))
    → (write_all empty_buffer values).truncated ≡ false
    → (write_all empty_buffer values).buffer ≡ concat values
write_all_complete values h = (write_all-truncated empty_buffer values h).1
