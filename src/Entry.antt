-- ===== src/Entry.antt =====
-- main.cpp: the command line.
use dnet_core.Base.{
  ℕ, ◌%◌, ◌^◌, ◌≡◌, ◌≢◌, List, [], ◌∷◌, Option, none, some, Option-cases, inl, inr, refl, Bool,
  true, false, length, arith,
}
use dnet_core.Net.{Net}
use dnet_core.Os.{Kernel, Run, pure, ◌>>=◌, Trace}
use dnet_core.Driver.Device.{Device}
use dnet_core.Boot.{
  Boot, started, bad_address, init_failed, route_failed, not_started, boot_undefined, construct,
}

-- How `main` ends: with an exit code, by an exception that nothing catches, undefined, or not at all,
-- asleep over the stack that was constructed.
pub data Ended : Type 0 where
  returned : ℕ → Ended
  uncaught ended_undefined : Ended
  asleep : Net → Device → Ended

abbrev pub ending : Boot → Ended
ending (started n d) = asleep n d
ending boot_undefined = ended_undefined
ending _ = uncaught

-- The five arguments; `none` is that `std::stoul` throws. The `unsigned long` becomes an `int`.
unfoldable pub with_mtu : Kernel → List ℕ → Option ℕ → List ℕ → List ℕ → List ℕ → Run Ended
with_mtu k ifname none mac dest_ip gen_mask = pure uncaught
with_mtu k ifname (some mtu) mac dest_ip gen_mask = do
  boot ← construct k (record {
    ifname = ifname;
    mtu = mtu % 2 ^ 32;
    mac = mac;
    dest_ip = dest_ip;
    gen_mask = gen_mask;
  })
  pure (ending boot)

-- `main` on its arguments, the name of the program first.
unfoldable pub main : Kernel → (List ℕ → Option ℕ) → List (List ℕ) → Run Ended
main k stoul (_ ∷ ifname ∷ mtu ∷ mac ∷ dest_ip ∷ gen_mask ∷ []) =
    with_mtu k ifname (stoul mtu) mac dest_ip gen_mask
main k stoul _ = pure (returned 1)

-- The command line is checked before anything is done.
pub main_usage :
    (k : Kernel) (stoul : List ℕ → Option ℕ) (args : List (List ℕ)) (t : Trace)
    → length args ≢ 6
    → main k stoul args t ≡ (returned 1, t)
unfolding main
main_usage k stoul args t few = ground arith

abbrev returns : Ended → Bool
returns (returned code) = true
returns _ = false

ending-returns : (b : Boot) → returns (ending b) ≡ false
ending-returns (started n d) = refl
ending-returns bad_address = refl
ending-returns init_failed = refl
ending-returns route_failed = refl
ending-returns not_started = refl
ending-returns boot_undefined = refl

-- With its five arguments, the program never ends with an exit code.
pub main_no_return :
    (k : Kernel) (stoul : List ℕ → Option ℕ) (args : List (List ℕ)) (t : Trace)
    → length args ≡ 6
    → returns (main k stoul args t).0 ≡ false
unfolding main with_mtu
main_no_return k stoul [] t e = absurd (omega (arith, e))
main_no_return k stoul (_ ∷ []) t e = absurd (omega (arith, e))
main_no_return k stoul (_ ∷ _ ∷ []) t e = absurd (omega (arith, e))
main_no_return k stoul (_ ∷ _ ∷ _ ∷ []) t e = absurd (omega (arith, e))
main_no_return k stoul (_ ∷ _ ∷ _ ∷ _ ∷ []) t e = absurd (omega (arith, e))
main_no_return k stoul (_ ∷ _ ∷ _ ∷ _ ∷ _ ∷ []) t e = absurd (omega (arith, e))
main_no_return k stoul (_ ∷ _ ∷ _ ∷ _ ∷ _ ∷ _ ∷ _ ∷ _) t e = absurd (omega (arith, e))
main_no_return k stoul (_ ∷ ifname ∷ mtu ∷ mac ∷ dest_ip ∷ gen_mask ∷ []) t e =
    elim (Option-cases (stoul mtu)) [
      | inl refused ↦ rw refused refl
      | inr (n, read) ↦ rw read (ending-returns _)
    ]
