-- ===== src/Workflow/Rank/Growth.antt =====
-- How the groups change while they are ranked (calculate_upward_rank of
-- src/vrm/workflow/workflow.rs).
use vrm_rust.Base.{
  String, Bool, true, false, Option, none, some, string_eq, ◌==◌, if◌then◌else◌, map_option, ◌≡◌,
  refl, ap, sym, subst, ◌∙◌, arith,
}
use vrm_rust.Base.Int.{ℤ, pos}
use vrm_rust.Base.Dict
use vrm_rust.Base.Dict.{Dict}
use vrm_rust.Workflow.Types.{CoAllocation}
use vrm_rust.Workflow.Rank.{Direction, upward, downward, unmark, mark_discovered}

-- A group without what a ranking of the direction writes: every step of the ranking keeps it.
unfoldable pub bare : Direction → CoAllocation → CoAllocation
bare d g = record (d.finish g (pos 0) (pos 0)) { is_discovered = false; is_processed = false }

-- What the two directions have in common.
pub record IsDirection (d : Direction) : Type 0 where
  pub edges_unmark : (g : CoAllocation) → d.edges (unmark g) ≡ d.edges g
  pub edges_discovered : (g : CoAllocation) → d.edges (mark_discovered g) ≡ d.edges g
  pub edges_kept : (g : CoAllocation) (r n : ℤ) → d.edges (d.finish g r n) ≡ d.edges g
  pub members_kept : (g : CoAllocation) (r n : ℤ) → (d.finish g r n).members ≡ g.members
  pub node_kept : (g : CoAllocation) (r n : ℤ) → (d.finish g r n).representative ≡ g.representative
  pub rank_set : (g : CoAllocation) (r n : ℤ) → d.rank (d.finish g r n) ≡ r
  pub number_set : (g : CoAllocation) (r n : ℤ) → d.number (d.finish g r n) ≡ n
  pub marked : (g : CoAllocation) (r n : ℤ) → (d.finish g r n).is_processed ≡ true
  pub bare_unmark : (g : CoAllocation) → bare d (unmark g) ≡ bare d g
  pub bare_discovered : (g : CoAllocation) → bare d (mark_discovered g) ≡ bare d g
  pub bare_finish : (g : CoAllocation) (r n : ℤ) → bare d (d.finish g r n) ≡ bare d g

pub upward-IsDirection : IsDirection upward
unfolding upward unmark mark_discovered bare
upward-IsDirection = record {
  edges_unmark = λ g. refl;
  edges_discovered = λ g. refl;
  edges_kept = λ g r n. refl;
  members_kept = λ g r n. refl;
  node_kept = λ g r n. refl;
  rank_set = λ g r n. refl;
  number_set = λ g r n. refl;
  marked = λ g r n. refl;
  bare_unmark = λ g. refl;
  bare_discovered = λ g. refl;
  bare_finish = λ g r n. refl;
}

pub downward-IsDirection : IsDirection downward
unfolding downward unmark mark_discovered bare
downward-IsDirection = record {
  edges_unmark = λ g. refl;
  edges_discovered = λ g. refl;
  edges_kept = λ g r n. refl;
  members_kept = λ g r n. refl;
  node_kept = λ g r n. refl;
  rank_set = λ g r n. refl;
  number_set = λ g r n. refl;
  marked = λ g r n. refl;
  bare_unmark = λ g. refl;
  bare_discovered = λ g. refl;
  bare_finish = λ g r n. refl;
}

-- A group that is in the map has its rank.
abbrev pub IsSettled : Dict String CoAllocation → String → Type 0
IsSettled co k = (g : CoAllocation) → Dict.get k co ≡ some g → g.is_processed ≡ true

abbrev pub IsGroup : Dict String CoAllocation → String → Type 0
IsGroup co k = (g : CoAllocation) × (Dict.get k co ≡ some g)

abbrev pub IsRankedGroup : Dict String CoAllocation → String → Type 0
IsRankedGroup co k = (g : CoAllocation) × (Dict.get k co ≡ some g) × (g.is_processed ≡ true)

module _ (d : Direction) where
  pub record IsLike (g g' : CoAllocation) : Type 0 where
    pub edges : d.edges g' ≡ d.edges g
    pub members : g'.members ≡ g.members
    pub node : g'.representative ≡ g.representative
    pub kept : bare d g' ≡ bare d g

  pub IsLike-refl : (g : CoAllocation) → IsLike g g
  IsLike-refl g = record { edges = refl; members = refl; node = refl; kept = refl }

  pub IsLike-trans : (x y z : CoAllocation) → IsLike x y → IsLike y z → IsLike x z
  IsLike-trans x y z k l = record {
    edges = l.edges ∙ k.edges;
    members = l.members ∙ k.members;
    node = l.node ∙ k.node;
    kept = l.kept ∙ k.kept;
  }

  abbrev pub Likes : Dict String CoAllocation → Dict String CoAllocation → Type 0
  Likes co co' =
      (k : String) (g' : CoAllocation)
      → Dict.get k co' ≡ some g'
      → (g : CoAllocation) × (Dict.get k co ≡ some g) × IsLike g g'

  pub record Grows (co co' : Dict String CoAllocation) : Type 0 where
    pub back :
        (k : String) (g' : CoAllocation)
        → Dict.get k co' ≡ some g'
        → (g : CoAllocation) × (Dict.get k co ≡ some g)
          × IsLike g g'
          × (g.is_processed ≡ true → g' ≡ g)
    pub forth : (k : String) (g : CoAllocation) → Dict.get k co ≡ some g → IsGroup co' k

  pub Grows-Likes : (co co' : Dict String CoAllocation) → Grows co co' → Likes co co'
  Grows-Likes co co' gr k g' e = let (g, eg, like, keep) = gr.back k g' e in (g, eg, like)

  pub Grows-refl : (co : Dict String CoAllocation) → Grows co co
  Grows-refl co = record {
    back = λ k g e. (g, e, IsLike-refl g, λ p. refl);
    forth = λ k g e. (g, e);
  }

  pub Grows-trans : (a b c : Dict String CoAllocation) → Grows a b → Grows b c → Grows a c
  Grows-trans a b c g h = record {
    back = λ k x e.
        let (y, ey, ly, ky) = h.back k x e in
        let (z, ez, lz, kz) = g.back k y ey in
        (
          z,
          ez,
          IsLike-trans z y x lz ly,
          λ p. let q = kz p in ky (ap (λ (g : CoAllocation). g.is_processed) q ∙ p) ∙ q,
        );
    forth = λ k x e. let (y, ey) = g.forth k x e in h.forth k y ey;
  }

  pub IsSettled-Grows :
      (co co' : Dict String CoAllocation) (k : String)
      → Grows co co'
      → IsSettled co k
      → IsSettled co' k
  IsSettled-Grows co co' k gr h g' e =
      let (g, eg, like, keep) = gr.back k g' e in
      ap (λ (g : CoAllocation). g.is_processed) (keep (h g eg)) ∙ h g eg

  pub IsRankedGroup-Grows :
      (co co' : Dict String CoAllocation)
      → Grows co co'
      → (k : String) → IsRankedGroup co k
      → IsRankedGroup co' k
  IsRankedGroup-Grows co co' gr k (g, e, p) =
      let (g', e') = gr.forth k g e in
      let (h, eh, like, keep) = gr.back k g' e' in
      let same : g ≡ h = cc in
      (
        g',
        e',
        ap (λ (g : CoAllocation). g.is_processed)
              (keep (ap (λ (g : CoAllocation). g.is_processed) (sym same) ∙ p) ∙ sym same)
            ∙ p,
      )

  -- A change of one group that is not settled.
  module _ (co : Dict String CoAllocation) (key : String) (f : CoAllocation → CoAllocation)
      (like : (g : CoAllocation) → IsLike g (f g)) where
    back_at :
        (open_group : (g : CoAllocation) → Dict.get key co ≡ some g → g.is_processed ≡ false)
        (k : String) (g' : CoAllocation) (b : Bool) (o : Option CoAllocation)
        → (key == k) ≡ b
        → Dict.get k co ≡ o
        → (if b then map_option f o else o) ≡ some g'
        → (g : CoAllocation) × (o ≡ some g) × IsLike g g' × (g.is_processed ≡ true → g' ≡ g)
    back_at og k g' true none eb eo e = absurd (ground arith)
    back_at og k g' false none eb eo e = absurd (ground arith)
    back_at og k g' true (some g) eb eo e =
        let same : key ≡ k = (string_eq.same_iff key k).0 eb in
        let p : f g ≡ g' = cc in
        (
          g,
          refl,
          subst (IsLike g) p (like g),
          λ q. let no = og g (ap (λ k. Dict.get k co) same ∙ eo) in cc,
        )
    back_at og k g' false (some g) eb eo e =
        let p : g ≡ g' = cc in (g, refl, subst (IsLike g) p (IsLike-refl g), λ q. sym p)

    forth_at :
        (b : Bool) (g : CoAllocation)
        → (g' : CoAllocation) × ((if b then map_option f (some g) else some g) ≡ some g')
    forth_at true g = (f g, refl)
    forth_at false g = (g, refl)

    pub modify-Grows :
        ((g : CoAllocation) → Dict.get key co ≡ some g → g.is_processed ≡ false)
        → Grows co (Dict.modify key f co)
    modify-Grows og = record {
      back = λ k g' e.
          back_at og k g' (key == k) (Dict.get k co) refl refl
            (sym (Dict.get-modify key k f co) ∙ e);
      forth = λ k g e.
          let (g', e') = forth_at (key == k) g in
          (
            g',
            Dict.get-modify key k f co
                ∙ ap (λ (o : Option CoAllocation). if key == k then map_option f o else o) e
                ∙ e',
          );
    }
