-- ===== src/License/Policy/Defaults.antt =====
-- The policy that is in force before any file is read (backend/internal/license/checker.go).
use bomhort.Base.{Text, codes, List, [], ◌∷◌}
use bomhort.License.Category.{default_expression_mode}
use bomhort.License.Policy.{Policy, build_policy}

abbrev pub default_permissive : List Text
default_permissive =
    codes "Apache-2.0"
    ∷ codes "MIT"
    ∷ codes "MIT-0"
    ∷ codes "0BSD"
    ∷ codes "BSD-2-Clause"
    ∷ codes "BSD-2-Clause-FreeBSD"
    ∷ codes "BSD-3-Clause"
    ∷ codes "ISC"
    ∷ codes "PSF-2.0"
    ∷ codes "Python-2.0"
    ∷ codes "Python-2.0.1"
    ∷ codes "PostgreSQL"
    ∷ codes "UPL-1.0"
    ∷ codes "X11"
    ∷ codes "Zlib"
    ∷ codes "OpenSSL"
    ∷ codes "OpenSSL-standalone"
    ∷ codes "SSLeay-standalone"
    ∷ []

abbrev pub default_copyleft : List Text
default_copyleft =
    codes "GPL-2.0-only"
    ∷ codes "GPL-2.0-or-later"
    ∷ codes "GPL-3.0-only"
    ∷ codes "GPL-3.0-or-later"
    ∷ codes "LGPL-2.1-only"
    ∷ codes "LGPL-2.1-or-later"
    ∷ codes "LGPL-3.0-only"
    ∷ codes "LGPL-3.0-or-later"
    ∷ codes "AGPL-3.0-only"
    ∷ codes "AGPL-3.0-or-later"
    ∷ codes "MPL-2.0"
    ∷ codes "EPL-1.0"
    ∷ codes "EPL-2.0"
    ∷ codes "EUPL-1.2"
    ∷ codes "CPAL-1.0"
    ∷ []

unfoldable pub default_policy : Policy
default_policy = build_policy default_permissive default_copyleft default_expression_mode
