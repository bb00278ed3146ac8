-- ===== src/Plugins/Order.antt =====
-- In what order the plugin registry calls its plugins.
use folk_core.Base.{
  suc, ◌≡◌, refl, ap, sym, ◌∙◌, inl, inr, String, Option, none, some, List, [], ◌∷◌, ◌++◌, reverse,
  take, length, length-append, append-nil, append_assoc, arith, Option-cases,
}
use folk_core.Plugins.{
  Plugin, PluginRegistry, PluginEvent, booting, shutting_down, BootResult, booted, boot_failed,
  shutdown_each, shutdown_partial, boot_from, boot_all, shutdown_all,
}

-- The plugins called, in the order of the calls.
abbrev pub boots : List PluginEvent → List Plugin
boots [] = []
boots (booting p ∷ es) = p ∷ boots es
boots (_ ∷ es) = boots es

abbrev pub shutdowns : List PluginEvent → List Plugin
shutdowns [] = []
shutdowns (shutting_down p ∷ es) = p ∷ shutdowns es
shutdowns (_ ∷ es) = shutdowns es

-- The plugins in front of the first whose boot fails, and that one with its error.
abbrev pub bootable : List Plugin → List Plugin
bootable [] = []
bootable (p ∷ ps) = elim p.boot [ none ↦ p ∷ bootable ps | some e ↦ [] ]

abbrev pub first_failure : List Plugin → Option (Plugin × String)
first_failure [] = none
first_failure (p ∷ ps) = elim p.boot [ none ↦ first_failure ps | some e ↦ some (p, e) ]

abbrev pub tried : List Plugin → List Plugin
tried ps = elim (first_failure ps) [ none ↦ bootable ps | some (p, e) ↦ bootable ps ++ p ∷ [] ]

abbrev pub result_of : Option (Plugin × String) → BootResult
result_of none = booted
result_of (some (p, e)) = boot_failed p.name e

shutdowns-shutdown_each :
    (ps : List Plugin) → (shutdowns (shutdown_each ps) ≡ ps) × (boots (shutdown_each ps) ≡ [])
unfolding shutdown_each
shutdowns-shutdown_each [] = (refl, refl)
shutdowns-shutdown_each (p ∷ ps) = ground (arith, shutdowns-shutdown_each ps)

take-append : (xs ys : List Plugin) → take (length xs) (xs ++ ys) ≡ xs
take-append [] ys = refl
take-append (x ∷ xs) ys = ap (λ l. x ∷ l) (take-append xs ys)

-- The run of `boot_from` when the plugins `done` have booted and `ps` are to come.
boot_from-Order :
    (done ps : List Plugin) (r : PluginRegistry)
    → r.plugins ≡ done ++ ps
    → let (result, es) = boot_from r (length done) ps in
      (result ≡ result_of (first_failure ps))
      × (boots es ≡ tried ps)
      × (shutdowns es
          ≡ (elim (first_failure ps) [ none ↦ [] | some f ↦ reverse (done ++ bootable ps) ]))
unfolding boot_from shutdown_partial
boot_from-Order done [] r e = (refl, refl, refl)
boot_from-Order done (p ∷ ps) r e = elim (Option-cases p.boot) [
  | inl ok ↦
      let more = done ++ p ∷ [] in
      let ih = boot_from-Order more ps r (e ∙ sym (append_assoc done (p ∷ []) ps)) in
      let count : length more ≡ suc (length done) =
        omega (arith, length-append {0} done (p ∷ [])) in
      ground (arith, ok, ih, count, append_assoc done (p ∷ []) (bootable ps))
  | inr (x, failed) ↦
      let kept : take (length done) r.plugins ≡ done =
        ap (take (length done)) e ∙ take-append done (p ∷ ps) in
      ground (
        arith,
        failed,
        kept,
        append-nil done,
        shutdowns-shutdown_each (reverse (take (length done) r.plugins)),
      )
]

-- `boot_all` succeeds exactly if no boot fails, and else gives the first failure and its plugin. It
-- boots the plugins in the order of registration, up to that failure and no further; and it shuts
-- down, in reverse, those that had booted before the failure, and none if there is no failure. The
-- answers of the shutdowns change nothing.
pub boot_all-Order :
    (r : PluginRegistry)
    → let (result, es) = boot_all r in
      (result ≡ result_of (first_failure r.plugins))
      × (boots es ≡ tried r.plugins)
      × (shutdowns es
          ≡ (elim (first_failure r.plugins) [ none ↦ [] | some f ↦ reverse (bootable r.plugins) ]))
unfolding boot_all
boot_all-Order r = boot_from-Order [] r.plugins r refl

take_all : (xs : List Plugin) → take (length xs) xs ≡ xs
take_all [] = refl
take_all (x ∷ xs) = ap (λ l. x ∷ l) (take_all xs)

pub shutdowns-shutdown_all :
    (r : PluginRegistry)
    → (shutdowns (shutdown_all r) ≡ reverse r.plugins) × (boots (shutdown_all r) ≡ [])
unfolding shutdown_all shutdown_partial
shutdowns-shutdown_all r =
    let (down, up) = shutdowns-shutdown_each (reverse (take (length r.plugins) r.plugins)) in
    (down ∙ ap reverse (take_all r.plugins), up)

pub bootable_all : (ps : List Plugin) → first_failure ps ≡ none → bootable ps ≡ ps
bootable_all [] e = refl
bootable_all (p ∷ ps) e = ground (arith, bootable_all ps)
