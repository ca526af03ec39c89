-- ===== src/Middleware/Order.antt =====
-- The order in which a chain's middleware see a request.
use mathlib.Core.List.{reverse, reverse-cons}
use go_web_sdk.Common.{ap, ◌∙◌, sym, ◌∷◌, ◌++◌, Option, [], List, ◌≡◌, refl}
use go_web_sdk.Http.Handler.{Handler}
use go_web_sdk.Middleware.{reverse, Middleware, apply, chain, wrap_each}

wrap_each-append :
    (h : Handler) (xs ys : List (Option Middleware))
    → wrap_each h (xs ++ ys) ≡ wrap_each (wrap_each h xs) ys
unfolding wrap_each
wrap_each-append h [] ys = refl
wrap_each-append h (m ∷ xs) ys = wrap_each-append (apply m h) xs ys

pub chain-nil : (h : Handler) → chain h [] ≡ h
unfolding chain wrap_each
chain-nil h = refl

-- The first middleware of a chain is outermost, so it sees the request first; a nil one is skipped.
pub chain-cons :
    (h : Handler) (m : Option Middleware) (ms : List (Option Middleware))
    → chain h (m ∷ ms) ≡ apply m (chain h ms)
unfolding chain wrap_each
chain-cons h m ms = rw (reverse-cons m ms) (wrap_each-append h (reverse ms) (m ∷ []))

-- A chain of two lists is the chain of the first around the chain of the second.
pub chain-append :
    (h : Handler) (xs ys : List (Option Middleware)) → chain h (xs ++ ys) ≡ chain (chain h ys) xs
chain-append h [] ys = sym (chain-nil (chain h ys))
chain-append h (m ∷ xs) ys =
    chain-cons h m (xs ++ ys)
    ∙ ap (apply m) (chain-append h xs ys)
    ∙ sym (chain-cons (chain h ys) m xs)
