-- ===== src/Workflow/Rank/Start.antt =====
-- The first two steps of the ranking: no group is marked, and the groups without a neighbour on the
-- other side are in the queue.
use vrm_rust.Base.{
  ◌≤◌, String, Bool, true, false, Option, none, some, List, [], ◌∷◌, string_eq, ◌==◌, if◌then◌else◌,
  map_option, ◌≡◌, refl, ap, sym, subst, ◌∙◌, ◌⊎◌, inl, inr, arith, All, All-map, length,
  Bool-cases,
}
use vrm_rust.Base.Dict
use vrm_rust.Base.Dict.{Dict}
use vrm_rust.Workflow.Types.{CoAllocation}
use vrm_rust.Workflow.Rank.{
  Direction, Ranking, unmark, clear_marks, mark_discovered, discover, enqueue, count_edges,
}
use vrm_rust.Workflow.Rank.Growth.{
  IsLike, IsLike-refl, IsLike-trans, Likes, IsGroup, IsSettled, IsDirection,
}

get-clear_marks :
    (k : String) (co : Dict String CoAllocation)
    → Dict.get k (clear_marks co) ≡ map_option unmark (Dict.get k co)
unfolding clear_marks Dict.get
get-clear_marks k [] = refl
get-clear_marks k ((j, g) ∷ co) = elim (Bool-cases (j == k)) [
  | inl e ↦ rw e refl
  | inr e ↦ rw e (get-clear_marks k co)
]

pub clear_marks-IsGroup :
    (co : Dict String CoAllocation) (k : String) → IsGroup co k → IsGroup (clear_marks co) k
clear_marks-IsGroup co k (g, e) = (unmark g, get-clear_marks k co ∙ ap (map_option unmark) e)

-- No group has its rank.
abbrev pub AllOpen : Dict String CoAllocation → Type 0
AllOpen co = (k : String) (g : CoAllocation) → Dict.get k co ≡ some g → g.is_processed ≡ false

map_option-some {ℓ κ} :
    {A : Type ℓ} {B : Type κ} (f : A → B) (o : Option A) (b : B)
    → map_option f o ≡ some b
    → (a : A) × (o ≡ some a) × (f a ≡ b)
map_option-some f none b e = absurd (ground arith)
map_option-some f (some a) b e = (a, refl, cc)

module _ (d : Direction) (laws : IsDirection d) where
  unmark-IsLike : (g : CoAllocation) → IsLike d g (unmark g)
  unfolding unmark
  unmark-IsLike g = record {
    edges = unfold unmark in laws.edges_unmark g;
    members = refl;
    node = refl;
    kept = unfold unmark in laws.bare_unmark g;
  }

  discovered-IsLike : (g : CoAllocation) → IsLike d g (mark_discovered g)
  unfolding mark_discovered
  discovered-IsLike g = record {
    edges = unfold mark_discovered in laws.edges_discovered g;
    members = refl;
    node = refl;
    kept = unfold mark_discovered in laws.bare_discovered g;
  }

  Likes-trans : (a b c : Dict String CoAllocation) → Likes d a b → Likes d b c → Likes d a c
  Likes-trans a b c g h k x e =
      let (y, ey, ly) = h k x e in let (z, ez, lz) = g k y ey in (z, ez, IsLike-trans d z y x lz ly)

  pub clear_marks-Likes : (co : Dict String CoAllocation) → Likes d co (clear_marks co)
  clear_marks-Likes co k g' e =
      let (g, eg, p) = map_option-some unmark (Dict.get k co) g' (sym (get-clear_marks k co) ∙ e) in
      (g, eg, subst (IsLike d g) p (unmark-IsLike g))

  pub clear_marks-AllOpen : (co : Dict String CoAllocation) → AllOpen (clear_marks co)
  unfolding unmark
  clear_marks-AllOpen co k g' e =
      let (g, eg, p) = map_option-some unmark (Dict.get k co) g' (sym (get-clear_marks k co) ∙ e) in
      subst (λ (g : CoAllocation). g.is_processed ≡ false) p refl

  -- What a step of `enqueue` keeps; a settled queue later on means settled keys.
  pub record Enqueued (r r' : Ranking) (keys : List String) : Type 0 where
    pub likes : Likes d r.co_allocations r'.co_allocations
    pub kept : (k : String) → IsGroup r.co_allocations k → IsGroup r'.co_allocations k
    pub open_kept : AllOpen r.co_allocations → AllOpen r'.co_allocations
    pub queued : All (IsGroup r.co_allocations) r.queue → All (IsGroup r'.co_allocations) r'.queue
    pub finished : r'.finished ≡ r.finished
    pub settled :
        (co' : Dict String CoAllocation)
        → Likes d r'.co_allocations co'
        → All (IsSettled co') r'.queue
        → All (IsSettled co') keys × All (IsSettled co') r.queue

  split_modified :
      (key k : String) (co : Dict String CoAllocation) (g' : CoAllocation) (b : Bool)
      → (key == k) ≡ b
      → (if b then map_option mark_discovered (Dict.get k co) else Dict.get k co) ≡ some g'
      → (g : CoAllocation) × (Dict.get k co ≡ some g) × ((mark_discovered g ≡ g') ⊎ (g ≡ g'))
  split_modified key k co g' true eb e =
      let (g, eg, p) = map_option-some mark_discovered (Dict.get k co) g' e in (g, eg, inl p)
  split_modified key k co g' false eb e = (g', e, inr refl)

  modified :
      (key k : String) (co : Dict String CoAllocation) (g' : CoAllocation)
      → Dict.get k (Dict.modify key mark_discovered co) ≡ some g'
      → (g : CoAllocation) × (Dict.get k co ≡ some g) × ((mark_discovered g ≡ g') ⊎ (g ≡ g'))
  modified key k co g' e =
      split_modified key k co g' (key == k) refl
        (sym (Dict.get-modify key k mark_discovered co) ∙ e)

  modified-IsGroup :
      (key k : String) (co : Dict String CoAllocation) (b : Bool)
      → (key == k) ≡ b
      → IsGroup co k
      → IsGroup (Dict.modify key mark_discovered co) k
  modified-IsGroup key k co true eb (g, e) = (
    mark_discovered g,
    Dict.get-modify key k mark_discovered co ∙ rw eb (ap (map_option mark_discovered) e),
  )
  modified-IsGroup key k co false eb (g, e) =
      (g, Dict.get-modify key k mark_discovered co ∙ rw eb e)

  discover-Enqueued :
      (r : Ranking) (key : String) (o : Option CoAllocation)
      → Dict.get key r.co_allocations ≡ o
      → Enqueued r (discover r key o) (key ∷ [])
  unfolding discover
  discover-Enqueued r key none e = record {
    likes = λ k g eg. (g, eg, IsLike-refl d g);
    kept = λ k h. h;
    open_kept = λ h. h;
    queued = λ h. h;
    finished = refl;
    settled =
        λ co' like h. ((λ g eg. let (g0, e0, l) = like key g eg in absurd (cc (e, e0)), tt), h);
  }
  discover-Enqueued r key (some g0) e = record {
    likes = λ k g' e'.
        let (g, eg, p) = modified key k r.co_allocations g' e' in
        (
          g,
          eg,
          elim p [
            | inl q ↦ subst (IsLike d g) q (discovered-IsLike g)
            | inr q ↦ subst (IsLike d g) q (IsLike-refl d g)
          ],
        );
    kept = λ k h. modified-IsGroup key k r.co_allocations (key == k) refl h;
    open_kept = λ h k g' e'.
        let (g, eg, p) = modified key k r.co_allocations g' e' in
        elim p [
          | inl q ↦
              subst (λ (g : CoAllocation). g.is_processed ≡ false) q
                (unfold mark_discovered in h k g eg)
          | inr q ↦ subst (λ (g : CoAllocation). g.is_processed ≡ false) q (h k g eg)
        ];
    queued = λ h. (
      modified-IsGroup key key r.co_allocations (key == key) refl (g0, e),
      All-map (IsGroup r.co_allocations)
          (IsGroup (Dict.modify key mark_discovered r.co_allocations)) r.queue
          (λ k p. modified-IsGroup key k r.co_allocations (key == k) refl p) h,
    );
    finished = refl;
    settled = λ co' like h. ((h.0, tt), h.1);
  }

  pub enqueue-Enqueued : (keys : List String) (r : Ranking) → Enqueued r (enqueue r keys) keys
  unfolding enqueue
  enqueue-Enqueued [] r = record {
    likes = λ k g eg. (g, eg, IsLike-refl d g);
    kept = λ k h. h;
    open_kept = λ h. h;
    queued = λ h. h;
    finished = refl;
    settled = λ co' like h. (tt, h);
  }
  enqueue-Enqueued (key ∷ keys) r =
      let r1 = discover r key (Dict.get key r.co_allocations) in
      let first = discover-Enqueued r key (Dict.get key r.co_allocations) refl in
      let later = enqueue-Enqueued keys r1 in
      record {
        likes =
            Likes-trans r.co_allocations r1.co_allocations (enqueue r1 keys).co_allocations
              first.likes later.likes;
        kept = λ k h. later.kept k (first.kept k h);
        open_kept = λ h. later.open_kept (first.open_kept h);
        queued = λ h. later.queued (first.queued h);
        finished = later.finished ∙ first.finished;
        settled = λ co' like h.
            let (hs, h1) = later.settled co' like h in
            let (h0, hr) =
              first.settled co'
                (Likes-trans r1.co_allocations (enqueue r1 keys).co_allocations co' later.likes
                  like)
                h1 in
            ((h0.0, hs), hr);
      }

  pub length-edges-le :
      (k : String) (co : Dict String CoAllocation) (g : CoAllocation)
      → Dict.get k co ≡ some g
      → length (d.edges g) ≤ count_edges d co
  unfolding Dict.get count_edges
  length-edges-le k [] g e = absurd (ground arith)
  length-edges-le k ((j, h) ∷ co) g e = elim (Bool-cases (j == k)) [
    | inl t ↦
        let p : h ≡ g = cc (rw t at e) in let q = ap (λ g. length (d.edges g)) p in omega arith
    | inr t ↦ omega (arith, length-edges-le k co g (rw t at e))
  ]
