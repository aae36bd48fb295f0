-- ===== src/Capacity/Write.antt =====
-- What `write_data_to_device` of mfst.c writes.
use mfst.Common.{
  ℕ, zero, suc, ◌+◌, ◌-◌, ◌≤◌, ◌≡◌, refl, sym, ap, ◌∙◌, arith, Bool, true, false, Option, none,
  some, List, [], ◌∷◌, ◌++◌, if◌then◌else◌, ltb, ◌==◌, length, take, drop, length-take, length-drop,
  min,
}
use mathlib.Core.List.{append_assoc, append-nil}
use mfst.Common.Memory.{slice}
use mfst.Capacity.{write_data_loop, write_data_to_device}
use mfst.Context.{Context}
use mfst.Device.{Device}

-- What `write` does: of a buffer that is not empty it takes at least one byte from the beginning
-- and appends them to what was written. `content` is what was written so far.
pub record Appends {W : Type 0} (dev : Device W) (content : W → List ℕ) : Type 0 where
  pub some_bytes :
      (fd : Option ℕ) (b : List ℕ) (w : W) (ret : ℕ)
      → 1 ≤ length b
      → (dev.write fd b w).0 ≡ some ret
      → 1 ≤ ret
  pub not_more :
      (fd : Option ℕ) (b : List ℕ) (w : W) (ret : ℕ)
      → (dev.write fd b w).0 ≡ some ret
      → ret ≤ length b
  pub appended :
      (fd : Option ℕ) (b : List ℕ) (w : W) (ret : ℕ)
      → (dev.write fd b w).0 ≡ some ret
      → content (dev.write fd b w).1 ≡ content w ++ take ret b

take-add : (a b : ℕ) (xs : List ℕ) → take (a + b) xs ≡ take a xs ++ take b (drop a xs)
take-add zero b xs = ap (λ k. take k xs) (omega arith)
take-add (suc a) b [] = ap (λ k. take {A = ℕ} k []) {y = suc (a + b)} (omega arith) ∙ take-nil b
  where
    take-nil : (k : ℕ) → [] ≡ take {A = ℕ} k []
    take-nil zero = refl
    take-nil (suc k) = refl
take-add (suc a) b (x ∷ xs) =
    ap (λ k. take k (x ∷ xs)) {y = suc (a + b)} (omega arith) ∙ ap (λ ys. x ∷ ys) (take-add a b xs)

take-take : (a b : ℕ) (xs : List ℕ) → a ≤ b → take a (take b xs) ≡ take a xs
take-take zero b xs h = refl
take-take (suc a) zero xs h = absurd (omega (arith, h))
take-take (suc a) (suc b) [] h = refl
take-take (suc a) (suc b) (x ∷ xs) h = ap (λ ys. x ∷ ys) (take-take a b xs (omega (arith, h)))

take-all : (n : ℕ) (xs : List ℕ) → length xs ≤ n → take n xs ≡ xs
take-all zero [] h = refl
take-all (suc n) [] h = refl
take-all zero (x ∷ xs) h = absurd (omega (arith, h))
take-all (suc n) (x ∷ xs) h = ap (λ ys. x ∷ ys) (take-all n xs (omega (arith, h)))

-- The bytes of a chunk, when that many are left.
length-slice_left :
    (buf : List ℕ) (len left n : ℕ)
    → length buf ≡ len
    → left ≤ len
    → n ≤ left
    → length (slice buf (len - left) n) ≡ n
length-slice_left buf len left n e l h =
    omega (arith, e, l, h, length-take n (drop (len - left) buf), length-drop (len - left) buf)

-- It ends; with success, all of the buffer has been written.
abbrev pub Writes : {W : Type 0} → (W → List ℕ) → List ℕ → Option (Bool × W) → Type 0
Writes content all none = ⊥
Writes content all (some (false, w)) = Unit
Writes content all (some (true, w)) = content w ≡ all

option-Writes :
    {A W : Type 0} (content : W → List ℕ) (all : List ℕ) (o : Option A) (w : W)
    → (f : A → Option (Bool × W)) → ((a : A) → o ≡ some a → Writes content all (f a))
    → Writes content all
        (elim o as (λ x. Option (Bool × W)) [ none ↦ some (false, w) | some a ↦ f a ])
option-Writes content all none w f h = tt
option-Writes content all (some a) w f h = h a refl

either-Writes :
    {W : Type 0} (content : W → List ℕ) (all : List ℕ) (b : Bool) (p q : Option (Bool × W))
    → (b ≡ true → Writes content all p)
    → (b ≡ false → Writes content all q)
    → Writes content all (elim b as (λ x. Option (Bool × W)) [ true ↦ p | false ↦ q ])
either-Writes content all true p q hp hq = hp refl
either-Writes content all false p q hp hq = hq refl

-- The bytes of the next chunk.
chunk : (block_size left block_left : ℕ) → ℕ
chunk block_size left block_left = if block_left == 0 then min block_size (suc left) else block_left

chunk-fits :
    (block_size left block_left : ℕ)
    → 1 ≤ block_size
    → block_left ≤ suc left
    → (1 ≤ chunk block_size left block_left) × (chunk block_size left block_left ≤ suc left)
unfolding chunk
chunk-fits block_size left block_left b h = ground (arith, b, h)

module _ {W : Type 0} (dev : Device W) (content : W → List ℕ) (appends : Appends dev content) where
  write_data_loop-Writes :
      (fuel : ℕ) (ctx : Context) (block_size : ℕ) (buf : List ℕ) (len left block_left : ℕ) (w : W)
      → (before : List ℕ) → 1 ≤ block_size
      → left ≤ fuel
      → length buf ≡ len
      → left ≤ len
      → block_left ≤ left
      → content w ≡ before ++ take (len - left) buf
      → Writes content
          (before ++ buf)
          (write_data_loop dev fuel ctx block_size buf len left block_left w)
  unfolding write_data_loop chunk
  write_data_loop-Writes fuel ctx block_size buf len zero block_left w before b h e l bl c =
      c ∙ ap (λ xs. before ++ xs) (take-all (len - zero) buf (omega (arith, e)))
  write_data_loop-Writes zero ctx block_size buf len (suc left) block_left w before b h e l bl c =
      absurd (omega (arith, h))
  write_data_loop-Writes (suc fuel) ctx block_size buf len (suc left) block_left w before b h e l bl
        c =
      let n = chunk block_size left block_left in
      let fits = chunk-fits block_size left block_left b bl in
      let bytes = slice buf (len - suc left) n in
      let size = length-slice_left buf len (suc left) n e l fits.1 in
      let r = dev.write ctx.device_info.fd bytes w in
      either-Writes content (before ++ buf) (n == 0) _ _
        (λ none_left. absurd (ground (arith, none_left, fits.0)))
        λ more.
          option-Writes content (before ++ buf) r.0 r.1
            (λ ret. write_data_loop dev fuel ctx block_size buf len (suc left - ret) (n - ret) r.1)
            λ ret ok.
              let one =
                appends.some_bytes ctx.device_info.fd bytes w ret (omega (arith, size, fits.0))
                  ok in
              let most = appends.not_more ctx.device_info.fd bytes w ret ok in
              write_data_loop-Writes fuel ctx block_size buf len (suc left - ret) (n - ret) r.1
                before b (omega (arith, h, one)) e (omega (arith, l))
                (omega (arith, size, most, fits.1))
                (appends.appended ctx.device_info.fd bytes w ret ok
                  ∙ ap (λ xs. xs ++ take ret bytes) c
                  ∙ append_assoc before (take (len - suc left) buf) (take ret bytes)
                  ∙ ap (λ xs. before ++ xs)
                      (ap (λ xs. take (len - suc left) buf ++ xs)
                          (take-take ret n (drop (len - suc left) buf) (omega (arith, size, most)))
                        ∙ sym (take-add (len - suc left) ret buf)
                        ∙ ap (λ k. take k buf) (omega (arith, l, size, most, fits.1))))

  -- write_data_to_device returns, with fuel for the bytes of the buffer, and when it returns 0 the
  -- bytes that were written are those of the whole buffer in order, however they are cut into
  -- blocks and whatever part of a block each write takes; provided that the block size is not 0,
  -- that a write of a buffer that is not empty, when it does not fail, appends one or more bytes
  -- from its beginning, and that the allocation of memory writes nothing.
  pub write_data_to_device-Writes :
      (posix_memalign : ℕ → W → Bool × W) (fuel : ℕ) (ctx : Context) (buf : List ℕ) (w : W)
      → ((n : ℕ) (v : W) → content (posix_memalign n v).1 ≡ content v)
      → 1 ≤ ctx.device_info.optimal_block_size
      → length buf ≤ fuel
      → Writes content (content w ++ buf) (write_data_to_device dev posix_memalign fuel ctx buf w)
  unfolding write_data_to_device write_data_loop
  write_data_to_device-Writes posix_memalign fuel ctx [] w same b h =
      either-Writes content (content w ++ []) (posix_memalign 0 w).0 _ _
        (λ ok. same 0 w ∙ sym (append-nil (content w))) (λ failed. tt)
  write_data_to_device-Writes posix_memalign fuel ctx (x ∷ buf) w same b h =
      let len = suc (length buf) in
      let block = ctx.device_info.optimal_block_size in
      let aligned = posix_memalign len w in
      either-Writes content (content w ++ (x ∷ buf)) aligned.0 _ _
        (λ ok.
          write_data_loop-Writes fuel ctx (if ltb block len then block else len) (x ∷ buf) len len 0
            aligned.1 (content w) (positive block (length buf) b) h refl (omega arith) (omega arith)
            (same len w ∙ nothing (content w) len))
        (λ failed. tt)
    where
      positive : (block n : ℕ) → 1 ≤ block → 1 ≤ (if ltb block (suc n) then block else suc n)
      positive block n b = ground (arith, b)

      nothing : (xs : List ℕ) (n : ℕ) → xs ≡ xs ++ take (n - n) (x ∷ buf)
      nothing xs n = sym (append-nil xs) ∙ ap (λ k. xs ++ take k (x ∷ buf)) {x = 0} (omega arith)
