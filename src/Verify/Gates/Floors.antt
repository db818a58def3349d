-- ===== src/Verify/Gates/Floors.antt =====
-- `_floor_applies` of src/pgrls/verify.py beside the sessions that a restrictive policy binds.
use pgrls.Prelude.{
  Bool-cases, ◌==◌, nat_eq, string_eq, bool_eq, pair_eq, option_eq, is_empty, In, contains,
  intersects, contains-In, In-contains, subset-In, intersects-In, In-intersects, String, ◌≡◌, inl,
  inr, true, false, ◌||◌, List, [], ◌∷◌, arith,
}
use pgrls.Model.{Policy, Command, command_eq, for_all}
use pgrls.Rls.{applies, target_roles}
use pgrls.Verify.{Mode, anon, cross_tenant, write, escalation, reachability, mode_commands}
use pgrls.Verify.Gates.{write_ops, floor_applies}
use pgrls.Verify.Gates.Sound.{mode_acts, for_command}

write_ops-In :
    (c command : Command)
    → contains command (mode_acts write) ≡ true
    → (c == for_all || c == command) ≡ true
    → In command (write_ops c)
unfolding write_ops contains
write_ops-In c command m f = contains-In command (write_ops c) (ground arith)

In-write_ops :
    (c command : Command) → In command (write_ops c) → (c == for_all || c == command) ≡ true
unfolding write_ops contains
In-write_ops c command m = ground (arith, In-contains (write_ops c) m)

covers_command :
    (mode : Mode) (p r : Policy) (command : Command)
    → floor_applies p r mode ≡ true
    → contains r.command (mode_commands mode) ≡ true
    → contains command (mode_acts mode) ≡ true
    → for_command p command ≡ true
    → for_command r command ≡ true
unfolding floor_applies mode_commands contains
covers_command anon p r command h k m f = ground arith
covers_command cross_tenant p r command h k m f = ground arith
covers_command escalation p r command h k m f = absurd (ground arith)
covers_command reachability p r command h k m f = absurd (ground arith)
covers_command write p r command h k m f = In-write_ops r.command command (
    subset-In (write_ops p.command) (write_ops r.command) (ground arith)
      (write_ops-In p.command command m f))

targets_named :
    (r : Policy) (x : String) (held : List String)
    → In x r.roles
    → In x held
    → intersects (target_roles r) held ≡ true
unfolding target_roles
targets_named r x held a b = elim (Bool-cases (is_empty r.roles)) [
  | inr e ↦ rw (e, target_roles) (In-intersects r.roles held a b)
  | inl e ↦ absurd (ground (arith, none_in r.roles e a))
]
  where
    none_in : (rs : List String) → is_empty rs ≡ true → In x rs → false ≡ true
    none_in [] e m = elim m [ ]
    none_in (r ∷ rs) e m = e

covers_roles :
    (mode : Mode) (p r : Policy) (held : List String)
    → floor_applies p r mode ≡ true
    → is_empty p.roles ≡ false
    → contains "PUBLIC" held ≡ true
    → intersects (target_roles p) held ≡ true
    → intersects (target_roles r) held ≡ true
unfolding floor_applies target_roles
covers_roles mode p r held h n k i = elim (Bool-cases (contains "PUBLIC" r.roles)) [
  | inl c ↦
      targets_named r "PUBLIC" held (contains-In "PUBLIC" r.roles c) (contains-In "PUBLIC" held k)
  | inr c ↦
      let (x, a, b) = intersects-In p.roles held (rw (n, target_roles) at i) in
      targets_named r x held (subset-In p.roles r.roles (ground arith) a) b
]

-- x
pub floor_applies_sound :
    (mode : Mode) (p r : Policy) (command : Command) (held : List String)
    → floor_applies p r mode ≡ true
    → contains r.command (mode_commands mode) ≡ true
    → contains command (mode_acts mode) ≡ true
    → is_empty p.roles ≡ false
    → contains "PUBLIC" held ≡ true
    → applies p command held ≡ true
    → applies r command held ≡ true
unfolding applies
floor_applies_sound mode p r command held h k m n i a =
    ground (arith, covers_command mode p r command h k m, covers_roles mode p r held h n i)
