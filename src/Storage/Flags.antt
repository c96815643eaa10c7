-- ===== src/Storage/Flags.antt =====
-- examples/storage/main.go, server.go: the flags as they are written, and what a cluster leaves open.
use gorums_ata.Base.{
  ℕ, ◌≡◌, refl, ◌∙◌, ◌⊎◌, inl, inr, Bool, true, false, ◌&&◌, Option, none, some, List, [], ◌∷◌,
  ◌++◌, map, arith, ◌==◌, if◌then◌else◌, Option-cases, any, Sum-cases, Text, codes,
}
use gorums_ata.Inbound.{new_inbound_manager}
use Prim.Native.String.{String}
use text.Mathlib.TextEquality.{eq_iff}
use gorums_ata.Errors.{Err}
use gorums_ata.Stream.Types.{Message, ok}
use gorums_ata.System.{Resource, Effect, System, new_local_systems, stop_all}
use gorums_ata.System.Released.{is_open}
use gorums_ata.System.Started.{IsAfter, new_local_systems-IsAfter, stop_all_releases}
use gorums_ata.Handlers.{ServerCtx, Handler, chain_interceptors, find_handler, register_handler}
use gorums_ata.Handlers.Examples.{
  Example, logging, logging_simple, delayed, adds_metadata, no_foo, interceptor, rejects, is_foo,
  key_of, given, chain_interceptors-examples,
}
use gorums_ata.Server.{Server, new_server, with_interceptors, register, apply_options}
use gorums_ata.Storage.Text.{is_space, split_on}
use gorums_ata.Storage.Start.{
  trim_space, trim_left, trim_right, comma, example_named, parse_names, parse_interceptors,
  ClusterError, not_started, no_connection, wait_all, run_local_cluster,
}

-- The flag's name of an example; `LoggingInterceptor` has none of its own.
abbrev pub name_of : Example → Text
name_of logging = codes "logging"
name_of logging_simple = codes "logging"
name_of delayed = codes "delayed"
name_of adds_metadata = codes "metadata"
name_of no_foo = codes "nofoo"

abbrev pub named : Example → Example
named logging = logging_simple
named logging_simple = logging_simple
named delayed = delayed
named adds_metadata = adds_metadata
named no_foo = no_foo

-- Names with commas between them.
abbrev pub flag_of : Example → List Example → Text
flag_of e [] = name_of e
flag_of e (f ∷ fs) = name_of e ++ comma ∷ flag_of f fs

abbrev has_comma : Text → Bool
has_comma s = any (λ c. c == comma) s

split_on-last : (s : Text) → has_comma s ≡ false → split_on comma s ≡ s ∷ []
unfolding split_on
split_on-last [] h = refl
split_on-last (c ∷ s) h = ground (arith, split_on-last s)

split_on-next :
    (s t : Text) → has_comma s ≡ false → split_on comma (s ++ comma ∷ t) ≡ s ∷ split_on comma t
unfolding split_on
split_on-next [] t h = refl
split_on-next (c ∷ s) t h = ground (arith, split_on-next s t)

name_of-has_comma : (e : Example) → has_comma (name_of e) ≡ false
name_of-has_comma logging = refl
name_of-has_comma logging_simple = refl
name_of-has_comma delayed = refl
name_of-has_comma adds_metadata = refl
name_of-has_comma no_foo = refl

example_named-name_of : (e : Example) → example_named (trim_space (name_of e)) ≡ some (named e)
unfolding example_named trim_space trim_left trim_right is_space
example_named-name_of logging = refl
example_named-name_of logging_simple = refl
example_named-name_of delayed = refl
example_named-name_of adds_metadata = refl
example_named-name_of no_foo = refl

parse_names-cons :
    (name : Text) (names : List Text) (e : Example) (es : List Example)
    → example_named (trim_space name) ≡ some e
    → parse_names names ≡ inl es
    → parse_names (name ∷ names) ≡ inl (e ∷ es)
unfolding parse_names
parse_names-cons name names e es h k = ground arith

parse_names-nil : parse_names [] ≡ inl []
unfolding parse_names
parse_names-nil = refl

parse_names-flag_of :
    (e : Example) (es : List Example)
    → parse_names (split_on comma (flag_of e es)) ≡ inl (map named (e ∷ es))
parse_names-flag_of e [] =
    rw (split_on-last (name_of e) (name_of-has_comma e))
      (parse_names-cons (name_of e) [] (named e) [] (example_named-name_of e) parse_names-nil)
parse_names-flag_of e (f ∷ fs) =
    rw (split_on-next (name_of e) (flag_of f fs) (name_of-has_comma e)) (
      parse_names-cons (name_of e) (split_on comma (flag_of f fs)) (named e) (map named (f ∷ fs))
        (example_named-name_of e) (parse_names-flag_of f fs))

abbrev has_first : Text → Bool
has_first [] = false
has_first (c ∷ s) = true

flag_of-nonempty : (e : Example) (es : List Example) → has_first (flag_of e es) ≡ true
flag_of-nonempty logging [] = refl
flag_of-nonempty logging (f ∷ fs) = refl
flag_of-nonempty logging_simple [] = refl
flag_of-nonempty logging_simple (f ∷ fs) = refl
flag_of-nonempty delayed [] = refl
flag_of-nonempty delayed (f ∷ fs) = refl
flag_of-nonempty adds_metadata [] = refl
flag_of-nonempty adds_metadata (f ∷ fs) = refl
flag_of-nonempty no_foo [] = refl
flag_of-nonempty no_foo (f ∷ fs) = refl

parse_interceptors-nonempty :
    (s : Text)
    → has_first s ≡ true
    → parse_interceptors s
      ≡ elim (parse_names (split_on comma s)) as (λ _. Option (List Example) ⊎ Text) [
        | inl es ↦ inl (some es)
        | inr unknown ↦ inr unknown
      ]
unfolding parse_interceptors
parse_interceptors-nonempty [] h = cc
parse_interceptors-nonempty (c ∷ s) h = refl

-- The flag for interceptors gives their list back, in the order of the names.
pub parse_interceptors-flag_of :
    (e : Example) (es : List Example)
    → parse_interceptors (flag_of e es) ≡ inl (some (map named (e ∷ es)))
unfolding parse_interceptors
parse_interceptors-flag_of e es =
    parse_interceptors-nonempty (flag_of e es) (flag_of-nonempty e es)
    ∙ rw (parse_names-flag_of e es) refl

module _ {P : Type 0} (key : P → Option Text) (rejected : Err) (e : Example) (es : List Example)
    (s : Server P)
    (made : new_server
        (with_interceptors (map (interceptor key rejected) (map named (e ∷ es))) ∷ [])
      ≡ ok s) where
  new_server-interceptors : s.interceptors ≡ map (interceptor key rejected) (map named (e ∷ es))
  unfolding new_server apply_options with_interceptors new_inbound_manager
  new_server-interceptors = ground arith

  -- From the flag to the handler: the names with commas between them are read as the interceptors in
  -- their order, and a server with these runs a handler that is registered with it, on a message
  -- with an envelope, as the chain of the examples does: it rejects the key "foo" if the list has
  -- "nofoo", and else gives the message to the handler, with its entries replaced if the list has
  -- "metadata".
  pub parse_interceptors-register :
      (method : String) (h : Handler P) (ctx : ServerCtx) (p : Option P) (v : Message)
      → let ps = map named (e ∷ es) in
        (parse_interceptors (flag_of e es) ≡ inl (some ps))
        × (g : Handler P) × (find_handler method (register s method h).handlers ≡ some g)
        × (g ctx (record { msg = p; envelope = some v }) ≡ (
            if rejects ps && is_foo (key_of key (record { msg = p; envelope = some v }))
            then ok (record { ctx = ctx; out = none; err = some rejected })
            else h ctx (record { msg = p; envelope = some (given ps v) })))
  unfolding register register_handler
  parse_interceptors-register method h ctx p v = (
    parse_interceptors-flag_of e es,
    chain_interceptors h s.interceptors,
    rw ((eq_iff method method).1 refl) refl,
    rw new_server-interceptors
        (chain_interceptors-examples key rejected h (map named (e ∷ es)) ctx p v),
  )

module _ (close_err : Resource → Option Err) (outbound listen wait : ℕ → Option Err)
    (r : Resource) where
  -- Whether a resource is open, given what `runLocalCluster` returned.
  abbrev pub AfterCluster : List System ⊎ ClusterError → List Effect → Type 0
  AfterCluster (inl ss) es = is_open r false (es ++ stop_all close_err ss) ≡ false
  AfterCluster (inr (no_connection e)) es = is_open r false es ≡ false
  AfterCluster (inr (not_started e)) es =
      IsAfter close_err outbound 4 r (inr e) (is_open r false es)

  -- When `runLocalCluster` has succeeded, the stop function that it returns releases all that it
  -- opened. If the systems do not see each other in time, nothing that it opened is open; if they
  -- could not be made, it is what `NewLocalSystems` leaves open.
  pub run_local_cluster-AfterCluster :
      let (es, made) = run_local_cluster close_err outbound listen wait in AfterCluster made es
  unfolding run_local_cluster
  run_local_cluster-AfterCluster =
      let begun = new_local_systems-IsAfter close_err outbound listen 4 r in
      let es = (new_local_systems close_err outbound listen 4).0 in
      elim (Sum-cases (new_local_systems close_err outbound listen 4).1) [
        | inr (e, bad) ↦
            let ran : run_local_cluster close_err outbound listen wait ≡ (es, inr (not_started e)) =
              ground arith in
            rw ran (rw bad at begun)
        | inl (ss, made) ↦
            let clean = stop_all_releases close_err outbound listen 4 ss r made in
            elim (Option-cases (wait_all close_err outbound listen wait ss)) [
              | inl met ↦
                  let ran : run_local_cluster close_err outbound listen wait ≡ (es, inl ss) =
                    ground arith in
                  rw ran clean
              | inr (e, late) ↦
                  let ran : run_local_cluster close_err outbound listen wait
                      ≡ (es ++ stop_all close_err ss, inr (no_connection e)) =
                    ground arith in
                  rw ran clean
            ]
      ]
