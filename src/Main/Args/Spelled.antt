-- ===== src/Main/Args/Spelled.antt =====
-- The arguments of `main` from the options that they spell.
use demonic_c.Base.{
  ◌≡◌, refl, sym, ap, ◌∙◌, true, false, List, [], ◌∷◌, ◌++◌, String, Bool-cases, inl, inr,
  append_assoc, append-nil, All,
}
use demonic_c.Text.{Bytes, codes, eqb, eqb_iff, is, cat, front_is}
use demonic_c.Main.Args.{Options, no_options, Parsed, goes_on, refuses, path_arg, main_args}

-- An option with its argument, or a path.
pub data Item : Type 0 where
  output : Bytes → Item
  dir : Bytes → Item
  source : Bytes → Item

unfoldable pub spelled : List Item → List Bytes
spelled [] = []
spelled (output x ∷ items) = codes "-o" ∷ x ∷ spelled items
spelled (dir d ∷ items) = codes "-I" ∷ d ∷ spelled items
spelled (source s ∷ items) = s ∷ spelled items

-- The last output, or the one given.
unfoldable pub last_output : Bytes → List Item → Bytes
last_output x [] = x
last_output x (output y ∷ items) = last_output y items
last_output x (dir d ∷ items) = last_output x items
last_output x (source s ∷ items) = last_output x items

unfoldable pub dirs : List Item → List Bytes
dirs [] = []
dirs (output x ∷ items) = dirs items
dirs (dir d ∷ items) = d ∷ dirs items
dirs (source s ∷ items) = dirs items

unfoldable pub sources : List Item → List Bytes
sources [] = []
sources (output x ∷ items) = sources items
sources (dir d ∷ items) = sources items
sources (source s ∷ items) = s ∷ sources items

-- A path that is not empty and does not begin with `-`.
pub record IsPath (s : Bytes) : Type 0 where
  pub named : is s "" ≡ false
  pub no_dash : front_is b'-' s ≡ false

no_dash_other :
    (s : Bytes) (c : String)
    → front_is b'-' s ≡ false
    → front_is b'-' (codes c) ≡ true
    → is s c ≡ false
no_dash_other s c h e = elim (Bool-cases (is s c)) [
  | inl same ↦ absurd (cc (h, e, ap (front_is b'-') ((eqb_iff s (codes c)).0 same)))
  | inr other ↦ other
]

main_args-path :
    (o : Options) (s : Bytes) (rest : List Bytes)
    → front_is b'-' s ≡ false
    → main_args o (s ∷ rest) ≡ path_arg o s (main_args (record o { source_path = s }) rest)
unfolding main_args eqb
main_args-path o s [] h = rw (
  no_dash_other s "--help" h refl,
  no_dash_other s "-h" h refl,
  no_dash_other s "--version" h refl,
  no_dash_other s "-V" h refl,
  no_dash_other s "-o" h refl,
  no_dash_other s "-I" h refl,
)
main_args-path o s (b ∷ rest) h = rw (
  no_dash_other s "--help" h refl,
  no_dash_other s "-h" h refl,
  no_dash_other s "--version" h refl,
  no_dash_other s "-V" h refl,
  no_dash_other s "-o" h refl,
  no_dash_other s "-I" h refl,
)

main_args-first :
    (o : Options) (s : Bytes) (rest : List Bytes)
    → IsPath s
    → o.source_path ≡ []
    → main_args o (s ∷ rest) ≡ main_args (record o { source_path = s }) rest
unfolding eqb
main_args-first o s rest p e = main_args-path o s rest p.no_dash ∙ rw (p.no_dash, e)

-- Behind the path.
main_args-options :
    (o : Options) (items : List Item)
    → sources items ≡ []
    → main_args o (spelled items)
      ≡ goes_on (record o {
        output_path = last_output o.output_path items;
        include_dirs = o.include_dirs ++ dirs items;
      })
unfolding main_args spelled last_output dirs sources eqb
main_args-options o [] e =
    ap (λ ds. goes_on (record o { include_dirs = ds })) (sym (append-nil o.include_dirs))
main_args-options o (output x ∷ items) e = main_args-options (record o { output_path = x }) items e
main_args-options o (dir d ∷ items) e =
    main_args-options (record o { include_dirs = o.include_dirs ++ (d ∷ []) }) items e
    ∙ ap
        (λ ds.
          goes_on (record o { output_path = last_output o.output_path items; include_dirs = ds }))
        (append_assoc o.include_dirs (d ∷ []) (dirs items))
main_args-options o (source s ∷ items) e = absurd cc

abbrev pub unexpected : Bytes → Parsed
unexpected t = refuses (cat (codes "dmc-native: unexpected argument '" ∷ t ∷ codes "'\n" ∷ []))

-- Behind the path there is no other.
main_args-second :
    (o : Options) (items : List Item) (t : Bytes) (more : List Bytes)
    → is o.source_path "" ≡ false
    → sources items ≡ t ∷ more
    → IsPath t
    → main_args o (spelled items) ≡ unexpected t
unfolding main_args spelled sources eqb
main_args-second o [] t more set e p = absurd cc
main_args-second o (output x ∷ items) t more set e p =
    main_args-second (record o { output_path = x }) items t more set e p
main_args-second o (dir d ∷ items) t more set e p =
    main_args-second (record o { include_dirs = o.include_dirs ++ (d ∷ []) }) items t more set e p
main_args-second o (source s ∷ items) t more set e p =
    let same : s ≡ t = cc in
    ap (λ u. main_args o (u ∷ spelled items)) same
    ∙ main_args-path o t (spelled items) p.no_dash
    ∙ rw (p.no_dash, set)

-- The end of the loop by the paths: the first is the source, and a second is refused.
unfoldable pub by_sources : Options → List Bytes → Parsed
by_sources o [] = goes_on o
by_sources o (s ∷ []) = goes_on (record o { source_path = s })
by_sources o (s ∷ t ∷ more) = unexpected t

abbrev pub options_of : Options → List Item → Options
options_of o items = record o {
  output_path = last_output o.output_path items;
  include_dirs = o.include_dirs ++ dirs items;
}

main_args-by_sources :
    (o : Options) (items : List Item)
    → o.source_path ≡ []
    → All IsPath (sources items)
    → main_args o (spelled items) ≡ by_sources (options_of o items) (sources items)
unfolding main_args spelled last_output dirs sources by_sources eqb
main_args-by_sources o [] e p = main_args-options o [] refl
main_args-by_sources o (output x ∷ items) e p =
    main_args-by_sources (record o { output_path = x }) items e p
main_args-by_sources o (dir d ∷ items) e p =
    main_args-by_sources (record o { include_dirs = o.include_dirs ++ (d ∷ []) }) items e p
    ∙ ap
        (λ ds.
          by_sources (record o { output_path = last_output o.output_path items; include_dirs = ds })
            (sources items))
        (append_assoc o.include_dirs (d ∷ []) (dirs items))
main_args-by_sources o (source s ∷ items) e (p, ps) =
    main_args-first o s (spelled items) p e ∙ behind (sources items) refl ps
  where
    behind :
        (paths : List Bytes)
        → sources items ≡ paths
        → All IsPath paths
        → main_args (record o { source_path = s }) (spelled items)
          ≡ by_sources (options_of o items) (s ∷ paths)
    behind [] none_left qs = main_args-options (record o { source_path = s }) items none_left
    behind (t ∷ more) some_left (q, qs) =
        main_args-second (record o { source_path = s }) items t more p.named some_left q

-- Where the arguments are the options `-o` and `-I` with any arguments, and paths that are not empty
-- and do not begin with `-`, in any order, the loop ends with the last argument of `-o` as the output,
-- or `-` without one, with the arguments of `-I` in their order, and with the path as the source. It
-- refuses a second path.
pub main_args-spelled :
    (items : List Item)
    → All IsPath (sources items)
    → main_args no_options (spelled items)
      ≡ by_sources (options_of no_options items) (sources items)
main_args-spelled items p = main_args-by_sources no_options items refl p
