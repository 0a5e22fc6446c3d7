-- ===== src/Scanner/Walk/Complete.antt =====
-- src/catalogue/SourceScanner.cpp: the loop over the entries as far as it runs on (enumerateRoot).
use scrub_tub.Base.{
  ◌≤◌, ◌≡◌, sym, ap, ◌∙◌, subst, Bool, true, false, List, [], ◌++◌, if◌then◌else◌, length, All,
  arith, Text, Bool-cases, inl, inr, Option-cases,
}
use scrub_tub.Scanner.{Item, Forest, nil, node, DiscoveryOptions, DiscoveredFile, DiscoveryResult}
use scrub_tub.Scanner.Walk.{Walk, visit, descends, fail_walk, step, walk}
use scrub_tub.Scanner.Walk.Sound.{
  all_batches, found_file, admissible, delivered, append_assoc, append_nil, IsBounded,
  visit-delivered,
}
use scrub_tub.Scanner.Walk.Bounds.{visit-IsBounded}

-- The loop ran on, with its batches within their bounds, and gave what `fs` says more.
pub record Ran (w : Walk) (fs : List DiscoveredFile) (v : Walk) : Type 0 where
  pub started : w.is_stopped ≡ false
  pub files : delivered v ≡ delivered w ++ fs
  pub bounded : IsBounded w → IsBounded v

Ran-trans :
    (u v w : Walk) (fs gs : List DiscoveredFile) → Ran u fs v → Ran v gs w → Ran u (fs ++ gs) w
Ran-trans u v w fs gs a b = record {
  started = a.started;
  files = b.files ∙ ap (λ l. l ++ gs) a.files ∙ append_assoc (delivered u) fs gs;
  bounded = λ h. b.bounded (a.bounded h);
}

either_Ran :
    (t : Bool) (w seen inside : Walk) (fs gs : List DiscoveredFile)
    → (seen.is_stopped ≡ false → Ran w fs seen)
    → (inside.is_stopped ≡ false → Ran seen gs inside)
    → (if t then inside else seen).is_stopped ≡ false
    → Ran w (fs ++ (if t then gs else [])) (if t then inside else seen)
either_Ran true w seen inside fs gs f g h =
    let b = g h in Ran-trans w seen inside fs gs (f b.started) b
either_Ran false w seen inside fs gs f g h = subst (λ l. Ran w l seen) (sym (append_nil fs)) (f h)

module _ (to_lower : Text → Text) where
  -- An entry behind which the loop runs on has been visited.
  running_step :
      (o : DiscoveryOptions) (i : Item) (w : Walk)
      → (step to_lower true o i w).is_stopped ≡ false
      → (w.is_stopped ≡ false) × (step to_lower true o i w ≡ visit to_lower true o i i.status w)
  unfolding step fail_walk
  running_step o i w h = elim (Bool-cases w.is_stopped) [
    | inl e ↦ absurd (ground (arith, e))
    | inr e ↦ elim (Option-cases i.failure) [
      | inr (m, f) ↦ absurd (ground (arith, e, f))
      | inl f ↦ elim (Bool-cases i.cancelled) [
        | inl c ↦ absurd (ground (arith, e, f, c))
        | inr c ↦ (e, ground (arith, e, f, c))
      ]
    ]
  ]

  step-Ran :
      (o : DiscoveryOptions) (i : Item) (w : Walk)
      → (step to_lower true o i w).is_stopped ≡ false
      → Ran w (found_file to_lower o i i.status) (step to_lower true o i w)
  step-Ran o i w h =
      let (e, same) = running_step o i w h in
      subst (Ran w (found_file to_lower o i i.status)) (sym same) (record {
        started = e;
        files = visit-delivered to_lower o i w i.status;
        bounded = visit-IsBounded to_lower o i w i.status;
      })

  pub walk-Ran :
      (o : DiscoveryOptions) (t : Forest) (w : Walk)
      → (walk to_lower true o t w).is_stopped ≡ false
      → Ran w (admissible to_lower o t) (walk to_lower true o t w)
  unfolding walk
  walk-Ran o nil w h = record {
    started = h;
    files = sym (append_nil (delivered w));
    bounded = λ b. b;
  }
  walk-Ran o (node i below rest) w h =
      let seen = step to_lower true o i w in
      let inside = walk to_lower true o below seen in
      let t = descends o i i.status in
      let later = walk-Ran o rest (if t then inside else seen) h in
      let fs = found_file to_lower o i i.status in
      let gs : List DiscoveredFile = if t then admissible to_lower o below else [] in
      let both =
        either_Ran t w seen inside fs (admissible to_lower o below) (λ q. step-Ran o i w q)
          (λ q. walk-Ran o below seen q) later.started in
      subst (λ l. Ran w l (walk to_lower true o rest (if t then inside else seen)))
        (append_assoc fs gs (admissible to_lower o rest))
        (Ran-trans w (if t then inside else seen)
          (walk to_lower true o rest (if t then inside else seen)) (fs ++ gs)
          (admissible to_lower o rest) both later)

-- The enumeration completed, and the sink was given these files in batches of 1 to 500.
abbrev pub Gives : List DiscoveredFile → DiscoveryResult → Type 0
Gives fs r =
    (all_batches r.batches ≡ fs)
    × (r.files ≡ [])
    × All (λ b. (1 ≤ length b) × (length b ≤ 500)) r.batches
