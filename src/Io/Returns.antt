-- ===== src/Io/Returns.antt =====
-- How often the device comes back, and what each step of the loops leaves of that.
use Prim.Native.String.{String}
use mfst.Common.{ℕ, ◌≤◌, ◌<◌, ◌≡◌, refl, arith, Bool, true, false, Option, none, some, List}
use mfst.Context.{Context, device_info_set_device_name, device_info_invalidate_file_handle}
use mfst.Device.{
  DeviceSearchResult, Device, device_disconnected, St, call, set_found, close_handle,
  invalidate_file_handle, store_match, wait_for_device_reconnect,
}
use mfst.Io.{andthen, adopt, reconnect}

-- The wait for the device ends. When the device has come back, it can do so once less.
abbrev pub WaitEnds : {W : Type 0} → (W → ℕ) → ℕ → Option (Option DeviceSearchResult × W) → Type 0
WaitEnds left n none = ⊥
WaitEnds left n (some (none, w)) = left w ≤ n
WaitEnds left n (some (some found, w)) = left w < n

-- `left` bounds how often the device can still come back: no operation raises it, every wait for
-- the device ends, and each time that the device comes back lowers it.
pub record ComesBack {W : Type 0} (dev : Device W) (left : W → ℕ) : Type 0 where
  pub lseek : (fd : Option ℕ) (p : ℕ) (w : W) → left (dev.lseek fd p w).1 ≤ left w
  pub tell : (fd : Option ℕ) (w : W) → left (dev.tell fd w).1 ≤ left w
  pub save : (ctx : Context) (w : W) → left (dev.save_state ctx w).1 ≤ left w
  pub read : (fd : Option ℕ) (n : ℕ) (w : W) → left (dev.read fd n w).1 ≤ left w
  pub write : (fd : Option ℕ) (b : List ℕ) (w : W) → left (dev.write fd b w).1 ≤ left w
  pub close : (fd : ℕ) (w : W) → left (dev.close fd w) ≤ left w
  pub strdup : (s : String) (w : W) → left (dev.strdup s w).1 ≤ left w
  pub gone : (n : ℕ) (w : W) → left (dev.did_device_disconnect n w).1 ≤ left w
  pub wait : (ctx : Context) (w : W) → WaitEnds left (left w) (dev.receive_match ctx w)
  pub make_result :
      (found : DeviceSearchResult) (w : W)
      → left (dev.create_device_search_result found w).1 ≤ left w
  pub can_reset : (ctx : Context) (w : W) → left (dev.can_reset_device ctx w).1 ≤ left w
  pub open_usb : (fd : Option ℕ) (w : W) → left (dev.open_usb_device fd w).1 ≤ left w
  pub usb_reset : (fd : ℕ) (w : W) → left (dev.usb_reset fd w).1 ≤ left w
  pub search :
      (ctx : Context) (name : Option String) (w : W)
      → left (dev.search_device ctx name w).2 ≤ left w

-- There is a result, and it is as `P` says.
abbrev pub Yields : {W A : Type 0} → (A → St W → Type 0) → Option (A × St W) → Type 0
Yields P none = ⊥
Yields P (some r) = P r.0 r.1

module _ {W : Type 0} where
  pub Yields-andthen :
      {A B : Type 0} (P : A → St W → Type 0) (Q : B → St W → Type 0)
      → (o : Option (A × St W)) (next : A → St W → Option (B × St W)) → Yields P o
      → ((a : A) (st : St W) → P a st → Yields Q (next a st))
      → Yields Q (andthen o next)
  Yields-andthen P Q none next p q = absurd p
  Yields-andthen P Q (some r) next p q = q r.0 r.1 p

  pub Yields-branch :
      {A : Type 0} (P : A → St W → Type 0) (b : Bool) (x y : Option (A × St W))
      → (b ≡ true → Yields P x)
      → (b ≡ false → Yields P y)
      → Yields P (elim b [ true ↦ x | false ↦ y ])
  Yields-branch P true x y p q = p refl
  Yields-branch P false x y p q = q refl

module _ {W : Type 0} (dev : Device W) (left : W → ℕ) (back : ComesBack dev left) where
  abbrev pub Below : {A : Type 0} → ℕ → A → St W → Type 0
  Below n a st = left st.world ≤ n

  adopt-left :
      (found : Option DeviceSearchResult) (st : St W)
      → left (adopt dev found st).1.world ≤ left st.world
  unfolding adopt
  adopt-left none st = omega arith
  adopt-left (some found) st = omega (
    arith,
    back.strdup found.device_name st.world,
    back.strdup found.device_name (dev.strdup found.device_name st.world).1,
  )

  close_handle-left : (fd : Option ℕ) (w : W) → left (close_handle dev fd w) ≤ left w
  unfolding close_handle
  close_handle-left none w = omega arith
  close_handle-left (some fd) w = back.close fd w

  pub invalidate-left : (st : St W) → left (invalidate_file_handle dev st).world ≤ left st.world
  unfolding invalidate_file_handle device_info_invalidate_file_handle
  invalidate-left st = close_handle-left st.ctx.device_info.fd st.world

  -- When the device is back, it can come back once less.
  abbrev pub Back : ℕ → Bool → St W → Type 0
  Back n true st = left st.world < n
  Back n false st = left st.world ≤ n

  Back-le : (b : Bool) (m n : ℕ) (st : St W) → m ≤ n → Back m b st → Back n b st
  Back-le true m n st le h = omega arith
  Back-le false m n st le h = omega arith

  pub Back-lt : (b : Bool) (n : ℕ) (st : St W) → left st.world < n → Back n b st
  Back-lt true n st h = h
  Back-lt false n st h = omega arith

  store_match-left :
      (found : Option DeviceSearchResult) (st : St W)
      → left (store_match dev found st).1.world ≤ left st.world
  unfolding store_match
  store_match-left none st = omega arith
  store_match-left (some found) st =
      let copy = dev.strdup found.device_name st.world in
      let to_copy = back.strdup found.device_name st.world in
      let copied = call (dev.strdup found.device_name) st in
      let named = device_info_set_device_name st.ctx copy.0 in
      chosen
        (call (dev.create_device_search_result found)
          (record (copied.1) { ctx = set_found found named.1 }))
        (none, record (copied.1) { ctx = named.1; world = dev.close found.fd copied.1.world })
        named.0 (omega (arith, to_copy, back.make_result found copy.1))
        (omega (arith, to_copy, back.close found.fd copy.1))
    where
      chosen :
          (x y : Option DeviceSearchResult × St W) (b : Bool)
          → left (x.1.world) ≤ left st.world
          → left (y.1.world) ≤ left st.world
          → left
              (elim b as (λ z. Option DeviceSearchResult × St W) [ false ↦ y | true ↦ x ]).1.world
            ≤ left st.world
      chosen x y true p q = p
      chosen x y false p q = q

  -- NULL, or a result when the device is back.
  abbrev pub Found : ℕ → Option DeviceSearchResult → St W → Type 0
  Found n none st = left st.world ≤ n
  Found n (some found) st = left st.world < n

  Found-lt :
      (found : Option DeviceSearchResult) (n : ℕ) (st : St W) → left st.world < n → Found n found st
  Found-lt none n st h = omega arith
  Found-lt (some found) n st h = h

  pub wait-returns : (st : St W) → Yields (Found (left st.world)) (wait_for_device_reconnect dev st)
  unfolding wait_for_device_reconnect store_match
  wait-returns st = waited (dev.receive_match st.ctx st.world) (back.wait st.ctx st.world)
    where
      waited :
          (o : Option (Option DeviceSearchResult × W))
          → WaitEnds left (left st.world) o
          → Yields
              (Found (left st.world))
              (elim o as (λ x. Option (Option DeviceSearchResult × St W)) [
                | none ↦ none
                | some r ↦ some (store_match dev r.0 (record st { world = r.1 }))
              ])
      waited none h = h
      waited (some (none, w)) h = h
      waited (some (some found, w)) h =
          let stored = store_match dev (some found) (record st { world = w }) in
          Found-lt stored.0 (left st.world) stored.1
            (let l = store_match-left (some found) (record st { world = w }) in omega (arith, h, l))

  adopt-Back :
      (found : Option DeviceSearchResult) (n : ℕ) (st : St W)
      → Found n found st
      → Back n (adopt dev found st).0 (adopt dev found st).1
  unfolding adopt
  adopt-Back none n st h = h
  adopt-Back (some found) n st h =
      let r = adopt dev (some found) st in
      Back-lt r.0 n r.1 (let l = adopt-left (some found) st in omega (arith, h, l))

  pub reconnect-returns : (st : St W) → Yields (Back (left st.world)) (reconnect dev st)
  unfolding reconnect
  reconnect-returns st =
      let waiting = record st { main_thread_status = device_disconnected } in
      let closed = invalidate_file_handle dev waiting in
      let l = invalidate-left waiting in
      Yields-andthen (Found (left closed.world)) (Back (left st.world))
        (wait_for_device_reconnect dev closed) _ (wait-returns closed)
        λ found st' h.
          let restored = record st' { main_thread_status = st.main_thread_status } in
          let r = adopt dev found restored in
          Back-le r.0 (left closed.world) (left st.world) r.1 l (
            adopt-Back found (left closed.world) restored
              (same (left closed.world) found st' restored refl h))
    where
      same :
          (n : ℕ) (found : Option DeviceSearchResult) (a b : St W)
          → b.world ≡ a.world
          → Found n found a
          → Found n found b
      same n none a b e h = rw e h
      same n (some found) a b e h = rw e h

  -- What goes on after a function that tells whether the device is back.
  pub Back-andthen :
      {A : Type 0} (P : A → St W → Type 0) (n : ℕ) (o : Option (Bool × St W))
      → (again failed : St W → Option (A × St W)) → Yields (Back n) o
      → ((st : St W) → left st.world < n → Yields P (again st))
      → ((st : St W) → left st.world ≤ n → Yields P (failed st))
      → Yields P (andthen o λ b st. elim b [ true ↦ again st | false ↦ failed st ])
  Back-andthen P n o again failed h ok ko = Yields-andthen (Back n) P o _ h λ b st l. either b st l
    where
      either :
          (b : Bool) (st : St W)
          → Back n b st
          → Yields P (elim b [ true ↦ again st | false ↦ failed st ])
      either true st l = ok st l
      either false st l = ko st l
