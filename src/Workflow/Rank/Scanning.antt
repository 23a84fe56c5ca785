-- ===== src/Workflow/Rank/Scanning.antt =====
-- The end of the `for` loop over the dependencies of a group, and what it pushes
-- (calculate_upward_rank of src/vrm/workflow/workflow.rs).
use vrm_rust.Base.{
  ℕ, ◌≤◌, ◌<◌, String, Bool, true, false, Option, none, some, List, [], ◌∷◌, ◌++◌, string_eq, ◌≡◌,
  refl, ap, sym, subst, ◌∙◌, arith, All, All-append, All-append_left, All-append_right, length,
  length-append, bind-value,
}
use mathlib.Core.List.{append_assoc}
use vrm_rust.Base.Int.{ℤ}
use vrm_rust.Base.Dict
use vrm_rust.Base.Dict.{Dict}
use vrm_rust.Workflow.Types.{Workflow, CoAllocation, CoAllocationDependency, DataDependency}
use vrm_rust.Workflow.Rank.{
  Direction, Scan, through, improve, scan_ranked, scan_neighbour, scan_group, scan_deps,
}
use vrm_rust.Workflow.Rank.Growth.{Grows, IsSettled, IsGroup, IsSettled-Grows}

module _ (d : Direction) (w : Workflow) (level : String → ℕ) (co : Dict String CoAllocation) where
  -- Where a dependency leads is nearer to the end, and its transfer is known.
  pub record IsLower (l : ℕ) (dep : CoAllocationDependency) : Type 0 where
    pub lower : (g : CoAllocation) → Dict.get (d.next dep) co ≡ some g → level (d.next dep) < l
    pub transfer :
        (t : DataDependency) × (Dict.get dep.data_dependency w.data_dependencies ≡ some t)

  abbrev pub IsPushed : ℕ → String → Type 0
  IsPushed l k = IsGroup co k × (level k < l)

  -- What a loop over `deps` from `sc` gives: `pushes` are the neighbours that it pushes.
  pub record Scanned (l : ℕ) (sc sc' : Scan) (pushes : List String)
      (deps : List CoAllocationDependency) : Type 0 where
    pub queue : sc'.queue ≡ pushes ++ sc.queue
    pub few : length pushes ≤ length deps
    pub pushed : All (IsPushed l) pushes
    pub settled :
        (co' : Dict String CoAllocation)
        → Grows d co co'
        → All (IsSettled co') pushes
        → All (λ dep. IsSettled co' (d.next dep)) deps
    pub quiet :
        All (λ dep. IsSettled co (d.next dep)) deps → sc.waiting ≡ false → sc'.waiting ≡ false

module _ (d : Direction) (w : Workflow) (speed : ℤ) (level : String → ℕ)
    (co : Dict String CoAllocation) (duration : ℤ) where
  abbrev Visits : ℕ → Scan → CoAllocationDependency → Option Scan → Type 0
  Visits l sc dep o =
      (sc' : Scan) × (pushes : List String) × (o ≡ some sc')
      × Scanned d w level co l sc sc' pushes (dep ∷ [])

  improve-waiting :
      (sc : Scan) (possible : ℤ) (g : CoAllocation)
      → ((improve d sc possible g).queue ≡ sc.queue)
        × ((improve d sc possible g).waiting ≡ sc.waiting)
  unfolding improve
  improve-waiting sc possible g = ground arith

  visit_none :
      (l : ℕ) (sc : Scan) (dep : CoAllocationDependency)
      → Dict.get (d.next dep) co ≡ none
      → Visits l sc dep (some sc)
  visit_none l sc dep e = (
    sc,
    [],
    refl,
    record {
      queue = refl;
      few = omega arith;
      pushed = tt;
      settled = λ co' gr h.
          (λ g' e'. let (g, eg, like, keep) = gr.back (d.next dep) g' e' in absurd (cc), tt);
      quiet = λ h q. q;
    },
  )

  visit_neighbour :
      (l : ℕ) (sc : Scan) (dep : CoAllocationDependency) (g : CoAllocation) (b : Bool)
      → g.is_processed ≡ b
      → Dict.get (d.next dep) co ≡ some g
      → IsLower d w level co l dep
      → Visits l sc dep (scan_neighbour d w speed duration sc dep g b)
  unfolding scan_neighbour scan_ranked
  visit_neighbour l sc dep g true eb eg low =
      let (t, et) = low.transfer in
      let sc' = improve d sc (through d speed duration t g) g in
      let kept = improve-waiting sc (through d speed duration t g) g in
      (
        sc',
        [],
        ap (scan_ranked d speed duration sc g) et,
        record {
          queue = kept.0;
          few = omega arith;
          pushed = tt;
          settled = λ co' gr h. (
            IsSettled-Grows d co co' (d.next dep) gr (λ g' e'.
                let p : g ≡ g' = cc in subst (λ (g : CoAllocation). g.is_processed ≡ true) p eb),
            tt,
          );
          quiet = λ h q. kept.1 ∙ q;
        },
      )
  visit_neighbour l sc dep g false eb eg low = (
    record sc { waiting = true; queue = d.next dep ∷ sc.queue },
    d.next dep ∷ [],
    refl,
    record {
      queue = refl;
      few = omega arith;
      pushed = (((g, eg), low.lower g eg), tt);
      settled = λ co' gr h. h;
      quiet = λ h q. let no = h.0 g eg in cc;
    },
  )

  visit_group :
      (l : ℕ) (sc : Scan) (dep : CoAllocationDependency) (o : Option CoAllocation)
      → Dict.get (d.next dep) co ≡ o
      → IsLower d w level co l dep
      → Visits l sc dep (scan_group d w speed duration sc dep o)
  unfolding scan_group
  visit_group l sc dep none e low = visit_none l sc dep e
  visit_group l sc dep (some g) e low = visit_neighbour l sc dep g g.is_processed refl e low

  join :
      (l : ℕ) (a b c : Scan) (ps qs : List String) (dep : CoAllocationDependency)
      (deps : List CoAllocationDependency)
      → Scanned d w level co l a b ps (dep ∷ [])
      → Scanned d w level co l b c qs deps
      → Scanned d w level co l a c (qs ++ ps) (dep ∷ deps)
  join l a b c ps qs dep deps x y = record {
    queue = y.queue ∙ ap (λ q. qs ++ q) x.queue ∙ sym (append_assoc qs ps a.queue);
    few = omega (arith, length-append qs ps, x.few, y.few);
    pushed = All-append (IsPushed d w level co l) qs ps y.pushed x.pushed;
    settled = λ co' gr h. (
      (x.settled co' gr (All-append_right (IsSettled co') qs ps h)).0,
      y.settled co' gr (All-append_left (IsSettled co') qs ps h),
    );
    quiet = λ h q. y.quiet h.1 (x.quiet (h.0, tt) q);
  }

  pub scan_deps-Scanned :
      (l : ℕ) (deps : List CoAllocationDependency) (sc : Scan)
      → All (IsLower d w level co l) deps
      → (sc' : Scan) × (pushes : List String) × (scan_deps d w speed co duration sc deps ≡ some sc')
        × Scanned d w level co l sc sc' pushes deps
  unfolding scan_deps
  scan_deps-Scanned l [] sc low = (
    sc,
    [],
    refl,
    record {
      queue = refl;
      few = omega arith;
      pushed = tt;
      settled = λ co' gr h. tt;
      quiet = λ h q. q;
    },
  )
  scan_deps-Scanned l (dep ∷ deps) sc low =
      let (b, ps, eb, x) = visit_group l sc dep (Dict.get (d.next dep) co) refl low.0 in
      let (c, qs, ec, y) = scan_deps-Scanned l deps b low.1 in
      (
        c,
        qs ++ ps,
        bind-value (λ s. scan_deps d w speed co duration s deps) eb ∙ ec,
        join l sc b c ps qs dep deps x y,
      )
