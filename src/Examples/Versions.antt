-- ===== src/Examples/Versions.antt =====
-- Versions of Claude Code as its tests give them.
use llm_notch.Prelude.{◌≡◌, refl, some}
use llm_notch.Decision.Version.{known, unknown, detect_version}

release : detect_version (some " Claude Code 2.1.10 ") ≡ known "2.1.10"
unfolding detect_version
release = refl

older : detect_version (some "2.0.99") ≡ unknown (some "2.0.99")
unfolding detect_version
older = refl

no_version : detect_version (some "not-a-version") ≡ unknown (some "not-a-version")
unfolding detect_version
no_version = refl
