-- ===== src/Config.antt =====
-- The configuration (config/): which services run (helpers.go), and the policies.
pub mod Weights
pub mod Policy
pub mod Options
use pomerium.Prelude.{Bytes, Bool, ◌||◌}
use pomerium.Strings.{codes, bytes_eq}

-- IsAuthenticate, IsAuthorize, IsProxy and IsDataBroker, on the option `services`
unfoldable pub is_authenticate : Bytes → Bool
is_authenticate s = bytes_eq s (codes "all") || bytes_eq s (codes "authenticate")

unfoldable pub is_authorize : Bytes → Bool
is_authorize s = bytes_eq s (codes "all") || bytes_eq s (codes "authorize")

unfoldable pub is_proxy : Bytes → Bool
is_proxy s = bytes_eq s (codes "all") || bytes_eq s (codes "proxy")

unfoldable pub is_data_broker : Bytes → Bool
is_data_broker s =
    bytes_eq s (codes "all") || (bytes_eq s (codes "cache") || bytes_eq s (codes "databroker"))
