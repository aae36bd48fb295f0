-- ===== src/Io/Keeps.antt =====
-- What the functions that seek, read or write leave as it was: the status of the main thread,
-- everything in the context but the handle, the name and the number of the device, and a
-- disconnection that was noted before.
use Prim.Native.String.{String}
use mfst.Common.{
  Bool-cases, inl, inr, ℕ, zero, suc, ◌+◌, ◌≡◌, refl, ◌∙◌, Bool, true, false, Option, none, some,
  ltb, if◌then◌else◌,
}
use mfst.Context.{Context, device_info_set_device_name, device_info_invalidate_file_handle}
use mfst.Device.{
  DeviceSearchResult, Device, device_disconnected, St, call, set_found, invalidate_file_handle,
  store_match, wait_for_device_reconnect,
}
use mfst.Io.{
  max_reset_retries, andthen, note_disconnect, is_gone, adopt, reconnect, lseek_retry_loop,
}

-- The context without what a reconnection changes.
abbrev pub settled : Context → Context
settled ctx = record ctx {
  device_info = record (ctx.device_info) { device_name = none; device_num = 0; fd = none };
}

pub record Keeps {W : Type 0} (st st' : St W) : Type 0 where
  pub same_status : st'.main_thread_status ≡ st.main_thread_status
  pub same_context : settled st'.ctx ≡ settled st.ctx
  pub still_noted : st.device_was_disconnected ≡ true → st'.device_was_disconnected ≡ true

-- The result, if there is one.
abbrev pub Ends : {W A : Type 0} → (St W → Type 0) → Option (A × St W) → Type 0
Ends P none = Unit
Ends P (some r) = P r.1

module _ {W : Type 0} where
  pub Keeps-refl : (st : St W) → Keeps st st
  Keeps-refl st = record { same_status = refl; same_context = refl; still_noted = λ h. h }

  pub Keeps-trans : {a b c : St W} → Keeps a b → Keeps b c → Keeps a c
  Keeps-trans p q = record {
    same_status = q.same_status ∙ p.same_status;
    same_context = q.same_context ∙ p.same_context;
    still_noted = λ h. q.still_noted (p.still_noted h);
  }

  pub Keeps-call : {A : Type 0} (f : W → A × W) (st : St W) → Keeps st (call f st).1
  Keeps-call f st = record { same_status = refl; same_context = refl; still_noted = λ h. h }

  pub Keeps-note : (report : Bool) (st : St W) → Keeps st (note_disconnect report st)
  Keeps-note true st = record { same_status = refl; same_context = refl; still_noted = λ h. refl }
  Keeps-note false st = record { same_status = refl; same_context = refl; still_noted = λ h. h }

  pub Ends-weaken :
      {A : Type 0} {a b : St W} (o : Option (A × St W))
      → Keeps a b
      → Ends (Keeps b) o
      → Ends (Keeps a) o
  Ends-weaken none p q = tt
  Ends-weaken (some r) p q = Keeps-trans p q

  pub Ends-andthen :
      {A B : Type 0} (a : St W) (o : Option (A × St W)) (next : A → St W → Option (B × St W))
      → Ends (Keeps a) o
      → ((r : A) (st : St W) → Ends (Keeps st) (next r st))
      → Ends (Keeps a) (andthen o next)
  Ends-andthen a none next p q = tt
  Ends-andthen a (some r) next p q = Ends-weaken (next r.0 r.1) p (q r.0 r.1)

  pub Ends-branch :
      {A : Type 0} (a : St W) (b : Bool) (x y : Option (A × St W))
      → Ends (Keeps a) x
      → Ends (Keeps a) y
      → Ends (Keeps a) (elim b [ true ↦ x | false ↦ y ])
  Ends-branch a true x y p q = p
  Ends-branch a false x y p q = q

pub settled-set_found :
    (b : Bool) (found : DeviceSearchResult) (ctx : Context)
    → settled (if b then set_found found ctx else ctx) ≡ settled ctx
settled-set_found true found ctx = refl
settled-set_found false found ctx = refl

pub settled-set_device_name :
    (ctx : Context) (name : Option String)
    → settled (device_info_set_device_name ctx name).1 ≡ settled ctx
unfolding device_info_set_device_name
settled-set_device_name ctx none = refl
settled-set_device_name ctx (some name) = refl

module _ {W : Type 0} where
  -- The status of the main thread is set before a function and restored after it.
  pub restores :
      {A B : Type 0} (st st' : St W)
      → settled st'.ctx ≡ settled st.ctx
      → (st.device_was_disconnected ≡ true → st'.device_was_disconnected ≡ true)
      → (o : Option (A × St W)) → Ends (Keeps st') o
      → (next : A → St W → B × St W) → ((a : A) (s : St W) → Keeps s (next a s).1)
      → Ends
          (Keeps st)
          (andthen o λ a s. some (next a (record s { main_thread_status = st.main_thread_status })))
  restores st st' e h none k next kept = tt
  restores st st' e h (some r) k next kept =
      Keeps-trans {b = record (r.1) { main_thread_status = st.main_thread_status }}
        (record {
          same_status = refl;
          same_context = k.same_context ∙ e;
          still_noted = λ n. k.still_noted (h n);
        })
        (kept r.0 (record (r.1) { main_thread_status = st.main_thread_status }))

module _ {W : Type 0} (dev : Device W) where
  adopt-Keeps : (found : Option DeviceSearchResult) (st : St W) → Keeps st (adopt dev found st).1
  unfolding adopt
  adopt-Keeps none st = Keeps-refl st
  adopt-Keeps (some found) st =
      let copy = dev.strdup found.device_name (dev.strdup found.device_name st.world).1 in
      let same =
        settled-set_device_name
          (record (st.ctx) { device_info = record (st.ctx.device_info) { fd = some found.fd } })
          copy.0 in
      let named =
        device_info_set_device_name
          (record (st.ctx) { device_info = record (st.ctx.device_info) { fd = some found.fd } })
          copy.0 in
      record {
        same_status = refl;
        same_context = settled-set_found named.0 found named.1 ∙ same;
        still_noted = λ h. h;
      }

  store_match-Keeps :
      (found : Option DeviceSearchResult) (st : St W) → Keeps st (store_match dev found st).1
  unfolding store_match
  store_match-Keeps none st = Keeps-refl st
  store_match-Keeps (some found) st =
      let copy = dev.strdup found.device_name st.world in
      let same = settled-set_device_name st.ctx copy.0 in
      let copied = call (dev.strdup found.device_name) st in
      let named = device_info_set_device_name st.ctx copy.0 in
      chosen
        (call (dev.create_device_search_result found)
          (record (copied.1) { ctx = set_found found named.1 }))
        (none, record (copied.1) { ctx = named.1; world = dev.close found.fd copied.1.world })
        named.0 (record { same_status = refl; same_context = same; still_noted = λ h. h })
        (record { same_status = refl; same_context = same; still_noted = λ h. h })
    where
      chosen :
          (x y : Option DeviceSearchResult × St W) (b : Bool)
          → Keeps st (x.1)
          → Keeps st (y.1)
          → Keeps st (elim b as (λ z. Option DeviceSearchResult × St W) [ false ↦ y | true ↦ x ]).1
      chosen x y true p q = p
      chosen x y false p q = q

  pub wait-Keeps : (st : St W) → Ends (Keeps st) (wait_for_device_reconnect dev st)
  unfolding wait_for_device_reconnect
  wait-Keeps st = waited (dev.receive_match st.ctx st.world)
    where
      waited :
          (o : Option (Option DeviceSearchResult × W))
          → Ends (Keeps st) (elim o as (λ x. Option (Option DeviceSearchResult × St W)) [
            | none ↦ none
            | some r ↦ some (store_match dev r.0 (record st { world = r.1 }))
          ])
      waited none = tt
      waited (some r) =
          Keeps-trans {b = record st { world = r.1 }}
            (record { same_status = refl; same_context = refl; still_noted = λ h. h })
            (store_match-Keeps r.0 (record st { world = r.1 }))

  pub reconnect-Keeps : (st : St W) → Ends (Keeps st) (reconnect dev st)
  unfolding reconnect invalidate_file_handle device_info_invalidate_file_handle
  reconnect-Keeps st =
      let waiting = record st { main_thread_status = device_disconnected } in
      let closed = invalidate_file_handle dev waiting in
      restores st closed refl (λ h. h) (wait_for_device_reconnect dev closed) (wait-Keeps closed)
        (λ found st'. adopt dev found st') (λ found st'. adopt-Keeps found st')

  pub lseek_retry_loop-Keeps :
      (fuel : ℕ) (report : Bool) (position : ℕ) (ret : Option ℕ) (retry_count : ℕ) (st : St W)
      → Ends (Keeps st) (lseek_retry_loop dev fuel report position ret retry_count st)
  unfolding lseek_retry_loop
  lseek_retry_loop-Keeps zero report position none retry_count st =
      elim (Bool-cases (ltb retry_count max_reset_retries)) [
        | inl e ↦ rw e tt
        | inr e ↦ rw e (Keeps-refl st)
      ]
  lseek_retry_loop-Keeps (suc fuel) report position none retry_count st =
      let gone = is_gone dev st in
      let noted = note_disconnect report gone.1 in
      let to_noted =
        Keeps-trans (Keeps-call (dev.did_device_disconnect st.ctx.device_info.device_num) st)
          (Keeps-note report gone.1) in
      let ret = call (dev.lseek gone.1.ctx.device_info.fd position) gone.1 in
      Ends-branch st (ltb retry_count max_reset_retries) _ _
        (Ends-branch st gone.0 _ _
          (Ends-andthen st (reconnect dev noted) _ (Ends-weaken _ to_noted (reconnect-Keeps noted))
            (λ back st'.
              Ends-branch st' back _ _
                (lseek_retry_loop-Keeps fuel report position none retry_count st')
                (Keeps-refl st')))
          (Ends-weaken _
            (Keeps-trans (Keeps-call (dev.did_device_disconnect st.ctx.device_info.device_num) st)
              (Keeps-call (dev.lseek gone.1.ctx.device_info.fd position) gone.1))
            (lseek_retry_loop-Keeps fuel report position ret.0 (retry_count + 1) ret.1)))
        (Keeps-refl st)
  lseek_retry_loop-Keeps fuel report position (some x) retry_count st = Keeps-refl st
