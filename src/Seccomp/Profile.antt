-- ===== src/Seccomp/Profile.antt =====
-- The allow lists of mvp/internal/seccomp/allowlist_amd64.go and allowlist_arm64.go, and the audit
-- architecture of seccomp_linux.go. The file names stand for the build tags.
use oci_container_runtime_fr.Base.{ℕ, List, [], ◌∷◌, message, Result, ok, err}

-- runtime.GOARCH, as far as the package tells it apart.
pub data GoArch : Type 0 where
  amd64 arm64 other : GoArch

abbrev pub amd64_list : List ℕ
amd64_list =
    0 ∷ 1 ∷ 2 ∷ 3 ∷ 4 ∷ 5 ∷ 6 ∷ 7 ∷ 8 ∷ 9 ∷ 10 ∷ 11 ∷ 12 ∷ 13 ∷ 14 ∷ 15 ∷ 16 ∷ 17 ∷ 18 ∷ 19 ∷ 20
    ∷ 21 ∷ 22 ∷ 23 ∷ 24 ∷ 25 ∷ 26 ∷ 27 ∷ 28 ∷ 32 ∷ 33 ∷ 34 ∷ 35 ∷ 36 ∷ 37 ∷ 38 ∷ 39 ∷ 40 ∷ 41 ∷ 42
    ∷ 43 ∷ 44 ∷ 45 ∷ 46 ∷ 47 ∷ 48 ∷ 49 ∷ 50 ∷ 51 ∷ 52 ∷ 53 ∷ 54 ∷ 55 ∷ 56 ∷ 57 ∷ 58 ∷ 59 ∷ 60 ∷ 61
    ∷ 62 ∷ 63 ∷ 72 ∷ 73 ∷ 74 ∷ 75 ∷ 76 ∷ 77 ∷ 78 ∷ 79 ∷ 80 ∷ 81 ∷ 82 ∷ 83 ∷ 84 ∷ 85 ∷ 86 ∷ 87 ∷ 88
    ∷ 89 ∷ 90 ∷ 91 ∷ 92 ∷ 93 ∷ 94 ∷ 95 ∷ 96 ∷ 97 ∷ 99 ∷ 100 ∷ 102 ∷ 104 ∷ 105 ∷ 106 ∷ 107 ∷ 108
    ∷ 109 ∷ 110 ∷ 111 ∷ 112 ∷ 113 ∷ 114 ∷ 115 ∷ 116 ∷ 117 ∷ 118 ∷ 119 ∷ 120 ∷ 121 ∷ 124 ∷ 125 ∷ 126
    ∷ 127 ∷ 128 ∷ 129 ∷ 130 ∷ 131 ∷ 132 ∷ 137 ∷ 138 ∷ 186 ∷ 201 ∷ 202 ∷ 203 ∷ 204 ∷ 217 ∷ 218 ∷ 228
    ∷ 229 ∷ 230 ∷ 231 ∷ 232 ∷ 233 ∷ 257 ∷ 262 ∷ 263 ∷ 264 ∷ 267 ∷ 268 ∷ 269 ∷ 270 ∷ 271 ∷ 272 ∷ 273
    ∷ 274 ∷ 281 ∷ 284 ∷ 288 ∷ 290 ∷ 291 ∷ 292 ∷ 293 ∷ 302 ∷ 309 ∷ 318 ∷ 332 ∷ 435 ∷ 439 ∷ []

abbrev pub arm64_list : List ℕ
arm64_list =
    17 ∷ 19 ∷ 20 ∷ 21 ∷ 22 ∷ 23 ∷ 24 ∷ 25 ∷ 26 ∷ 29 ∷ 32 ∷ 33 ∷ 34 ∷ 35 ∷ 36 ∷ 37 ∷ 38 ∷ 40 ∷ 43
    ∷ 44 ∷ 45 ∷ 46 ∷ 47 ∷ 48 ∷ 49 ∷ 50 ∷ 51 ∷ 52 ∷ 53 ∷ 54 ∷ 55 ∷ 56 ∷ 57 ∷ 59 ∷ 61 ∷ 62 ∷ 63 ∷ 64
    ∷ 65 ∷ 66 ∷ 67 ∷ 68 ∷ 72 ∷ 73 ∷ 78 ∷ 79 ∷ 80 ∷ 82 ∷ 83 ∷ 88 ∷ 90 ∷ 91 ∷ 93 ∷ 94 ∷ 95 ∷ 98 ∷ 99
    ∷ 100 ∷ 101 ∷ 113 ∷ 114 ∷ 115 ∷ 118 ∷ 119 ∷ 120 ∷ 122 ∷ 123 ∷ 124 ∷ 129 ∷ 130 ∷ 131 ∷ 132 ∷ 134
    ∷ 135 ∷ 136 ∷ 137 ∷ 138 ∷ 139 ∷ 153 ∷ 155 ∷ 156 ∷ 157 ∷ 158 ∷ 159 ∷ 160 ∷ 165 ∷ 166 ∷ 172 ∷ 173
    ∷ 174 ∷ 175 ∷ 176 ∷ 177 ∷ 178 ∷ 179 ∷ 198 ∷ 199 ∷ 200 ∷ 201 ∷ 202 ∷ 203 ∷ 204 ∷ 205 ∷ 206 ∷ 207
    ∷ 208 ∷ 209 ∷ 210 ∷ 211 ∷ 212 ∷ 214 ∷ 215 ∷ 216 ∷ 220 ∷ 221 ∷ 222 ∷ 226 ∷ 233 ∷ 242 ∷ 261 ∷ 278
    ∷ 281 ∷ 291 ∷ 435 ∷ 439 ∷ []

-- `DefaultAllowList`. A Linux build for another architecture has none, and does not compile.
unfoldable pub default_allow_list : GoArch → List ℕ
default_allow_list amd64 = amd64_list
default_allow_list arm64 = arm64_list
default_allow_list other = []

-- `archAuditCurrent`
unfoldable pub arch_audit_current : GoArch → Result ℕ
arch_audit_current amd64 = ok 0xc000003e
arch_audit_current arm64 = ok 0xc00000b7
arch_audit_current other = err (message "seccomp: unsupported GOARCH")
