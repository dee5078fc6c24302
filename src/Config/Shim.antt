-- ===== src/Config/Shim.antt =====
-- src/config.rs: what every configuration that `collect` returns has.
use Prim.Native.String.{String}
use text.Mathlib.Text.{◌==◌ as str_eq, starts_with}
use netmuxd.Base.{
  ℕ, zero, suc, ◌≤◌, ◌≡◌, refl, false, ◌||◌, List, [], ◌∷◌, none, length, if_rule, case_rule, arith,
  ◌⊎◌, inl, inr,
}
use netmuxd.Config.{
  Platform, NetmuxdConfig, default_config, Parsed, panicked, exited, next, with_value, set_port,
  parse_upstream, set_upstream, set_plist_storage, parse_arg, Outcome, panic, exit, config,
  out_of_fuel, continue_with, collect_args, collect,
}

module _ (p : Platform) where
  -- With an upstream muxer, USB devices are left to it.
  abbrev pub IsShim : NetmuxdConfig p → Type 0
  IsShim c = (c.upstream ≡ none) ⊎ (c.use_usb ≡ false)

  -- Fewer arguments are left than there were.
  abbrev Shrinks : ℕ → Parsed p → Type 0
  Shrinks n panicked = Unit {0}
  Shrinks n exited = Unit {0}
  Shrinks n (next c args) = (length args ≤ n) × IsShim c

  with_value-Shrinks :
      (n : ℕ) (args : List String) (f : String → List String → Parsed p)
      → ((v : String) (rest : List String) → suc (length rest) ≡ length args → Shrinks n (f v rest))
      → Shrinks n (with_value p args f)
  with_value-Shrinks n [] f h = tt
  with_value-Shrinks n (v ∷ rest) f h = h v rest refl

  set_port-Shrinks :
      (c : NetmuxdConfig p) (args : List String)
      → IsShim c
      → Shrinks (length args) (set_port p c args)
  unfolding set_port
  set_port-Shrinks c args s = with_value-Shrinks (length args) args _ λ v rest e.
      case_rule (Shrinks (length args)) (p.parse_port v) (λ _. tt) (λ n _. (omega (arith, e), s))

  set_plist_storage-Shrinks :
      (c : NetmuxdConfig p) (args : List String)
      → IsShim c
      → Shrinks (length args) (set_plist_storage p c args)
  unfolding set_plist_storage
  set_plist_storage-Shrinks c args s =
      with_value-Shrinks (length args) args _ λ v rest e. (omega (arith, e), s)

  set_upstream-Shrinks :
      (c : NetmuxdConfig p) (args : List String) → Shrinks (length args) (set_upstream p c args)
  unfolding set_upstream
  set_upstream-Shrinks c [] = (omega arith, inr refl)
  set_upstream-Shrinks c (addr ∷ rest) =
      if_rule (Shrinks (suc (length rest))) (starts_with addr "-") (λ _. (omega arith, inr refl))
        (λ _.
          case_rule (Shrinks (suc (length rest))) (parse_upstream p addr) (λ _. tt)
            (λ a _. (omega arith, inr refl)))

  parse_arg-Shrinks :
      (c : NetmuxdConfig p) (arg : String) (args : List String)
      → IsShim c
      → Shrinks (length args) (parse_arg p c arg args)
  unfolding parse_arg
  parse_arg-Shrinks c arg args s =
      if_rule (Shrinks (length args)) (str_eq arg "-p" || str_eq arg "--port")
        (λ _. set_port-Shrinks c args s)
        λ _.
          if_rule (Shrinks (length args)) (str_eq arg "--host")
            (λ _. with_value-Shrinks (length args) args _ λ v rest e. (omega (arith, e), s))
            λ _.
              if_rule (Shrinks (length args)) (str_eq arg "--plist-storage")
                (λ _. set_plist_storage-Shrinks c args s)
                λ _.
                  if_rule (Shrinks (length args)) (str_eq arg "--disable-unix")
                    (λ _. (omega arith, s))
                    λ _.
                      if_rule (Shrinks (length args)) (str_eq arg "--disable-mdns")
                        (λ _. (omega arith, s))
                        λ _.
                          if_rule (Shrinks (length args)) (str_eq arg "--disable-usb")
                            (λ _. (omega arith, inr refl))
                            λ _.
                              if_rule (Shrinks (length args)) (str_eq arg "--disable-heartbeat")
                                (λ _. (omega arith, s))
                                λ _.
                                  if_rule (Shrinks (length args)) (str_eq arg "--upstream-usbmuxd")
                                    (λ _. set_upstream-Shrinks c args)
                                    λ _.
                                      if_rule (Shrinks (length args)) (str_eq arg "--socket-path")
                                        (λ _.
                                          with_value-Shrinks (length args) args _
                                            λ v rest e. (omega (arith, e), s))
                                        λ _.
                                          if_rule (Shrinks (length args))
                                            (str_eq arg "-h" || str_eq arg "--help") (λ _. tt)
                                            λ _.
                                              if_rule (Shrinks (length args)) (str_eq arg "--about")
                                                (λ _. tt) λ _. (omega arith, s)

  -- The loop had fuel enough, and a configuration that it gives leaves USB devices to the upstream
  -- muxer, if there is one.
  abbrev pub IsSettled : Outcome p → Type 0
  IsSettled panic = Unit {0}
  IsSettled exit = Unit {0}
  IsSettled (config c) = IsShim c
  IsSettled out_of_fuel = ⊥

  continue_with-IsSettled :
      (n : ℕ) (f : NetmuxdConfig p → List String → Outcome p) (r : Parsed p)
      → Shrinks n r
      → ((c : NetmuxdConfig p) (args : List String)
          → length args ≤ n
          → IsShim c
          → IsSettled (f c args))
      → IsSettled (continue_with p f r)
  continue_with-IsSettled n f panicked s h = tt
  continue_with-IsSettled n f exited s h = tt
  continue_with-IsSettled n f (next c args) s h = h c args s.0 s.1

  collect_args-IsSettled :
      (fuel : ℕ) (c : NetmuxdConfig p) (args : List String)
      → length args ≤ fuel
      → IsShim c
      → IsSettled (collect_args p fuel c args)
  unfolding collect_args
  collect_args-IsSettled zero c [] le s = s
  collect_args-IsSettled (suc fuel) c [] le s = s
  collect_args-IsSettled zero c (arg ∷ args) le s = absurd (omega arith)
  collect_args-IsSettled (suc fuel) c (arg ∷ args) le s =
      continue_with-IsSettled (length args) (collect_args p fuel) (parse_arg p c arg args)
        (parse_arg-Shrinks c arg args s)
        λ c' args' less s'. collect_args-IsSettled fuel c' args' (omega arith) s'

  -- Whatever the arguments, the loop over them ends: the process panics, exits, or goes on with a
  -- configuration. If that names an upstream muxer, it does not use USB, whatever the order of the
  -- options.
  pub collect-IsSettled : (args : List String) → IsSettled (collect p args)
  unfolding collect
  collect-IsSettled args =
      collect_args-IsSettled (length args) (default_config p) args (omega arith) (inl refl)
