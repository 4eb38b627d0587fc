-- ===== src/Spiegel/Intercept.antt =====
-- The intercepts of the process, in the order of their installation: np/spiegel/intercept.hxx and
-- .cxx. An intercept_t is its pointer; `addr_` reads its member of that name. An int result that is
-- 0 or -1 is a Bool, true for 0.
pub mod Installed
pub mod Cases
pub mod Refines
pub mod History
use novaprova.Prelude.{
  ℕ, Bool, true, false, Option, none, some, List, [], ◌∷◌, ◌++◌, ◌==◌, if◌then◌else◌, length,
}
use novaprova.Spiegel.Text.{Kernel}
use novaprova.Spiegel.Platform.{
  IntState, new_intstate, Machine, install_intercept, uninstall_intercept, is_intercept_installed,
}

pub record AddrState : Type 0 where
  pub state : IntState
  pub intercepts : List ℕ

-- The static map `installed_`, with what the platform's functions change.
pub record World : Type 0 where
  pub installed : ℕ → Option AddrState
  pub machine : Machine

unfoldable pub set_addrstate : ℕ → Option AddrState → (ℕ → Option AddrState) → ℕ → Option AddrState
set_addrstate addr astate installed a = if a == addr then astate else installed a

-- `get_addrstate(addr, true)`: what it points to.
unfoldable pub create_addrstate : ℕ → (ℕ → Option AddrState) → AddrState
create_addrstate addr installed = elim (installed addr) [
  | none ↦ record { state = new_intstate; intercepts = [] }
  | some astate ↦ astate
]

-- `get_addrstate(addr, false)`.
unfoldable pub get_addrstate : ℕ → World → Option AddrState
get_addrstate addr w = w.installed addr

-- The vector after the loop that erases the first element equal to `this`.
unfoldable pub erase : ℕ → List ℕ → List ℕ
erase this [] = []
erase this (i ∷ is) = let rest = erase this is in if i == this then is else i ∷ rest

module _ (k : Kernel) (addr_ : ℕ → ℕ) where
  unfoldable pub install : ℕ → World → Bool × World
  unfolding create_addrstate set_addrstate
  install this w =
      let addr = addr_ this in
      let astate = create_addrstate addr w.installed in
      let pushed = astate.intercepts ++ this ∷ [] in
      let put = λ (state : IntState).
        set_addrstate addr (some (record { state = state; intercepts = pushed })) w.installed in
      if length pushed == 1
      then (let r = install_intercept k addr astate.state w.machine in
          (r.0, record { installed = put r.1; machine = r.2 }))
      else (true, record { installed = put astate.state; machine = w.machine })

  unfoldable pub uninstall : ℕ → World → Bool × World
  unfolding create_addrstate set_addrstate
  uninstall this w =
      let addr = addr_ this in
      let astate = create_addrstate addr w.installed in
      let left = erase this astate.intercepts in
      if length left == 0
      then (let r = uninstall_intercept k addr astate.state w.machine in
          (r.0, record { installed = set_addrstate addr none w.installed; machine = r.1 }))
      else (
        true,
        record {
          installed =
              set_addrstate addr (some (record { state = astate.state; intercepts = left }))
                w.installed;
          machine = w.machine;
        },
      )

  unfoldable pub is_installed : ℕ → World → Bool
  is_installed this w = elim (get_addrstate (addr_ this) w) [
    | none ↦ false
    | some astate ↦ is_intercept_installed (addr_ this) w.machine
  ]

unfoldable pub is_intercepted : ℕ → World → Bool
is_intercepted addr w = elim (get_addrstate addr w) [ none ↦ false | some astate ↦ true ]

unfoldable pub get_intstate : ℕ → World → Option IntState
get_intstate addr w = elim (get_addrstate addr w) [ none ↦ none | some astate ↦ some astate.state ]

-- The call of a virtual method of each intercept of a vector, on the state that they share.
unfoldable pub dispatch_loop {ℓ} : {S : Type ℓ} → (ℕ → S → S) → List ℕ → S → S
dispatch_loop method [] s = s
dispatch_loop method (i ∷ is) s = dispatch_loop method is (method i s)

-- `dispatch_before` and `dispatch_after`, by the method that they call.
unfoldable pub dispatch {ℓ} : {S : Type ℓ} → (ℕ → S → S) → ℕ → World → S → S
dispatch method addr w s = elim (get_addrstate addr w) [
  | none ↦ s
  | some astate ↦ dispatch_loop method astate.intercepts s
]
