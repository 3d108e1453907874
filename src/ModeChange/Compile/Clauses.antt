-- ===== src/ModeChange/Compile/Clauses.antt =====
-- Which clauses `mode_compile` (utils/modechange.c, under src/) keeps.
use yafc.Base.{ℕ, suc, ◌≤◌, ◌≡◌, ◌∙◌, some, List, [], ◌∷◌, arith, length, Bytes}
use yafc.ModeChange.Mode.{Mode, Change, Flags}
use yafc.ModeChange.Parse.{mode_parse}
use yafc.ModeChange.Compile.{not_octal, parse_octal, link, compile_from, mode_compile}

compile-next :
    (f : ℕ) (flags : Flags) (umask : Mode) (m rest : Bytes) (d : ℕ) (c : Change)
    (list : List Change)
    → mode_parse flags umask m ≡ some (c, b',' ∷ d ∷ rest)
    → compile_from (suc f) flags umask m list ≡ compile_from f flags umask (d ∷ rest) (link list c)
unfolding compile_from
compile-next f flags umask m rest d c list e = rw (compile_from, e)

compile-last :
    (f : ℕ) (flags : Flags) (umask : Mode) (m : Bytes) (c : Change) (list : List Change)
    → mode_parse flags umask m ≡ some (c, [])
    → compile_from (suc f) flags umask m list ≡ some (link list c)
unfolding compile_from
compile-last f flags umask m c list e = rw (compile_from, e)

-- Of a mode that is no octal number and has three clauses that parse, the second is lost: the
-- list that is compiled holds the first and the third.
pub mode_compile_three :
    (flags : Flags) (umask : Mode) (m : Bytes) {c₁ c₂ c₃ : Change} {a b : ℕ} {s t : Bytes}
    → parse_octal m ≡ not_octal
    → mode_parse flags umask m ≡ some (c₁, b',' ∷ a ∷ s)
    → mode_parse flags umask (a ∷ s) ≡ some (c₂, b',' ∷ b ∷ t)
    → mode_parse flags umask (b ∷ t) ≡ some (c₃, [])
    → 3 ≤ length m
    → mode_compile flags umask m ≡ some (c₁ ∷ c₃ ∷ [])
unfolding mode_compile
mode_compile_three flags umask [] o e₁ e₂ e₃ h = absurd (omega arith)
mode_compile_three flags umask (x ∷ []) o e₁ e₂ e₃ h = absurd (omega arith)
mode_compile_three flags umask (x ∷ y ∷ []) o e₁ e₂ e₃ h = absurd (omega arith)
mode_compile_three flags umask (x ∷ y ∷ z ∷ m) {c₁} {c₂} {c₃} {a} {b} {s} {t} o e₁ e₂ e₃ h = rw o (
    compile-next _ flags umask _ s a c₁ [] e₁
    ∙ compile-next _ flags umask _ t b c₂ (c₁ ∷ []) e₂
    ∙ compile-last _ flags umask _ c₃ (c₁ ∷ c₂ ∷ []) e₃)
