-- ===== src/Platform/Ram/Contents.antt =====
-- The sparse RAM is a flat memory: loads, stores, and the one form of its pages.
use systemscope.Base.{
  ℕ, zero, suc, ◌+◌, ◌/◌, ◌<◌, ◌≡◌, refl, ap, ap₂, ◌∙◌, Option, none, some, List, [], ◌∷◌, arith,
  length, get_or, All, take, ◌==◌, if-cases,
}
use systemscope.Platform.Ram.{Ram, drop, chunk_len, put, load_loop, load, store_loop, store}
use systemscope.Platform.Ram.Pages.{IsEntry, IsRam, byte_in, byte_at, overlay}
use systemscope.Platform.Ram.Chunks.{IsSlice}
use systemscope.Platform.Ram.Loops.{load_loop-IsSlice, IsStored, store_loop-byte_at}

-- `n` bytes of a flat memory from `at` on.
abbrev pub flat_bytes : (ℕ → ℕ) → ℕ → ℕ → List ℕ
flat_bytes f at zero = []
flat_bytes f at (suc n) = f at ∷ flat_bytes f (suc at) n

pub flat_bytes-ext :
    (f : ℕ → ℕ) (at n : ℕ) (l : List ℕ)
    → length l ≡ n
    → ((i : ℕ) → i < n → get_or l i 0 ≡ f (at + i))
    → l ≡ flat_bytes f at n
flat_bytes-ext f at zero [] h k = refl
flat_bytes-ext f at zero (x ∷ l) h k = absurd (omega arith)
flat_bytes-ext f at (suc n) [] h k = absurd (omega arith)
flat_bytes-ext f at (suc n) (x ∷ l) h k =
    let first : at + 0 ≡ at = omega arith in
    let head : x ≡ f at = k 0 (omega arith) ∙ ap f first in
    let tail : l ≡ flat_bytes f (suc at) n =
      flat_bytes-ext f (suc at) n l (omega arith)
        (λ i h. k (suc i) (omega arith) ∙ ap f (step at i)) in
    ap₂ (λ y ys. y ∷ ys) head tail
  where
    step : (at i : ℕ) → at + suc i ≡ suc at + i
    step at i = omega arith

pub load-flat_bytes :
    (r : Ram) (at len : ℕ) → IsRam r → load r at len ≡ flat_bytes (byte_at r) at len
unfolding load IsSlice
load-flat_bytes r at len h =
    let (wide, bytes) = load_loop-IsSlice len r at len h (omega arith) in
    flat_bytes-ext (byte_at r) at len (load_loop len r at len) wide bytes

flat_bytes-cong :
    (f g : ℕ → ℕ) (at n : ℕ) → ((a : ℕ) → f a ≡ g a) → flat_bytes f at n ≡ flat_bytes g at n
flat_bytes-cong f g at zero h = refl
flat_bytes-cong f g at (suc n) h = ap₂ (λ y ys. y ∷ ys) (h at) (flat_bytes-cong f g (suc at) n h)

pub store-IsRam :
    (r : Ram) (offset : ℕ) (payload : List ℕ)
    → IsRam r
    → All (λ b. b < 256) payload
    → IsRam (store r offset payload)
unfolding store IsStored
store-IsRam r offset payload h b =
    (store_loop-byte_at (length payload) r offset payload h b (omega arith)).0

pub store-byte_at :
    (r : Ram) (offset : ℕ) (payload : List ℕ) (a : ℕ)
    → IsRam r
    → All (λ b. b < 256) payload
    → byte_at (store r offset payload) a ≡ overlay offset payload a (byte_at r a)
unfolding store IsStored
store-byte_at r offset payload a h b =
    (store_loop-byte_at (length payload) r offset payload h b (omega arith)).1 a

size-store_loop :
    (fuel : ℕ) (r : Ram) (at : ℕ) (payload : List ℕ) → (store_loop fuel r at payload).size ≡ r.size
unfolding store_loop
size-store_loop zero r at payload = refl
size-store_loop (suc fuel) r at payload =
    let n = chunk_len at (length payload) in
    if-cases {A = Ram} (λ s. s.size ≡ r.size) (length payload == 0) (λ e. refl)
      (λ e. size-store_loop fuel (put r at (take n payload)) (at + n) (drop n payload))

pub size-store : (r : Ram) (offset : ℕ) (payload : List ℕ) → (store r offset payload).size ≡ r.size
unfolding store
size-store r offset payload = size-store_loop (length payload) r offset payload

-- The RAM is a flat memory: what is loaded after a store are the bytes that were stored, where the
-- store wrote, and else the bytes from before it. The RAM is well formed, and bytes are stored.
pub load-store :
    (r : Ram) (offset : ℕ) (payload : List ℕ) (at len : ℕ)
    → IsRam r
    → All (λ b. b < 256) payload
    → load (store r offset payload) at len
      ≡ flat_bytes (λ a. overlay offset payload a (byte_at r a)) at len
unfolding store IsStored
load-store r offset payload at len h b =
    let (kept, flat) = store_loop-byte_at (length payload) r offset payload h b (omega arith) in
    load-flat_bytes (store_loop (length payload) r offset payload) at len kept
    ∙ flat_bytes-cong _ _ at len flat

get_or-lt : (l : List ℕ) (i : ℕ) → All (λ b. b < 256) l → get_or l i 0 < 256
get_or-lt [] i h = omega arith
get_or-lt (x ∷ l) zero h = h.0
get_or-lt (x ∷ l) (suc i) h = get_or-lt l i h.1

byte_in-lt : (o : Option (List ℕ)) (i : ℕ) → IsEntry o → byte_in o i < 256
byte_in-lt none i h = omega arith
byte_in-lt (some page) i h = get_or-lt page i h.are_bytes

flat_bytes-AreBytes :
    (f : ℕ → ℕ) (at n : ℕ)
    → ((a : ℕ) → f a < 256)
    → (length (flat_bytes f at n) ≡ n) × All (λ b. b < 256) (flat_bytes f at n)
flat_bytes-AreBytes f at zero h = (refl, tt)
flat_bytes-AreBytes f at (suc n) h =
    let (wide, bytes) = flat_bytes-AreBytes f (suc at) n h in (ap suc wide, (h at, bytes))

pub load-AreBytes :
    (r : Ram) (at len : ℕ)
    → IsRam r
    → (length (load r at len) ≡ len) × All (λ b. b < 256) (load r at len)
unfolding byte_at
load-AreBytes r at len h =
    rw (load-flat_bytes r at len h)
      (flat_bytes-AreBytes (byte_at r) at len (λ a. byte_in-lt _ _ (h (a / 4096))))
