-- ===== src/Client/Http/Laws.antt =====
-- Where redirects may lead, and when certificates go unverified.
use mathlib.Core.Path.{subst}
use forward_go_sdk.Prelude.{
  sym, suc, ◌+◌, ◌≤◌, ◌≡◌, refl, true, Option, none, List, [], ◌∷◌, ◌++◌, length, All, arith,
  length-append,
}
use forward_go_sdk.Client.Url.{Url, same_origin}
use forward_go_sdk.Client.Http.{
  RedirectPolicy, Redirect, follow, use_last_response, redirect_error, too_many_redirects,
  HttpClient, secure_policy, secure_redirects, follow_redirects, requested,
}

secure_policy-follow :
    (origin : Url) (caller : Option RedirectPolicy) (url : Url) (via : List Url)
    → secure_policy origin caller url via ≡ follow
    → same_origin url origin ≡ true
unfolding secure_policy
secure_policy-follow origin caller url via h = ground arith

secure_policy-short :
    (origin url : Url) (via : List Url)
    → secure_policy origin none url via ≡ follow
    → length via ≤ 9
unfolding secure_policy
secure_policy-short origin url via h = ground arith

-- An invariant of the policy's answers holds of all that is followed.
follow_redirects-All :
    (policy : RedirectPolicy) (P : Url → Type 0)
    → ((url : Url) (via : List Url) → policy url via ≡ follow → P url)
    → (via urls : List Url) → All P (follow_redirects policy via urls)
unfolding follow_redirects
follow_redirects-All policy P keep via [] = tt
follow_redirects-All policy P keep via (url ∷ urls) =
    go (policy url via) (keep url via) (follow_redirects-All policy P keep (via ++ url ∷ []) urls)
  where
    go :
        (verdict : Redirect)
        → (verdict ≡ follow → P url)
        → All P (follow_redirects policy (via ++ url ∷ []) urls)
        → All P (elim verdict [
          | follow ↦ url ∷ follow_redirects policy (via ++ url ∷ []) urls
          | _ ↦ []
        ])
    go follow k rest = (k refl, rest)
    go use_last_response k rest = tt
    go (redirect_error e) k rest = tt
    go too_many_redirects k rest = tt

follow_redirects-short :
    (policy : RedirectPolicy)
    → ((url : Url) (via : List Url) → policy url via ≡ follow → length via ≤ 9)
    → (via urls : List Url) → length via ≤ 10
    → length via + length (follow_redirects policy via urls) ≤ 10
unfolding follow_redirects
follow_redirects-short policy keep via [] h = omega arith
follow_redirects-short policy keep via (url ∷ urls) h = ground (
  arith,
  keep url via,
  length-append via (url ∷ []),
  follow_redirects-short policy keep (via ++ url ∷ []) urls,
)

-- Whatever chain of redirects the answers form, and whatever policy the caller gave, a client with
-- secured redirects requests no URL of another scheme or host than the origin's after the first
-- request; without a policy of the caller it makes ten requests at most.
pub requested-secure_redirects :
    (client : HttpClient) (origin first : Url) (urls : List Url)
    → same_origin first origin ≡ true
    → All
        (λ url. same_origin url origin ≡ true)
        (requested (secure_redirects client origin) first urls)
      × (client.check_redirect ≡ none
          → length (requested (secure_redirects client origin) first urls) ≤ 10)
unfolding requested secure_redirects
requested-secure_redirects client origin first urls h = (
  (
    h,
    follow_redirects-All _ _ (secure_policy-follow origin client.check_redirect) (first ∷ []) urls,
  ),
  λ e. subst (λ caller. suc (length (followed caller)) ≤ 10) (sym e) short,
)
  where
    followed : Option RedirectPolicy → List Url
    followed caller = follow_redirects (secure_policy origin caller) (first ∷ []) urls

    short : suc (length (followed none)) ≤ 10
    short = omega (
      arith,
      follow_redirects-short _ (secure_policy-short origin) (first ∷ []) urls (omega arith),
    )
