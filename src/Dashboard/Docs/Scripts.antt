-- ===== src/Dashboard/Docs/Scripts.antt =====
-- The snippets of the documentation for Python, Rust and Go, line by line.
use volq_auth.Base.{List, [], ◌∷◌, String, ◌<>◌}
use volq_auth.Dashboard.Docs.Injected.{Credentials}

unfoldable pub python : Credentials → List String
python c =
    "# ============================================================================"
    ∷ "# VOLQ-AUTH (OPENKEYAUTH) - PYTHON 3 CLIENT INTEGRATION"
    ∷ "# ============================================================================"
    ∷ "from volq_auth import VolqAuthClient"
    ∷ ""
    ∷ "def main():"
    ∷ "    client = VolqAuthClient("
    ∷ ("        app_id=\"" <> c.app_id <> "\",")
    ∷ ("        app_version=\"" <> c.app_version <> "\",")
    ∷ ("        master_public_key=\"" <> c.master_pub_key <> "\",")
    ∷ "        base_url=\"https://api.yourdomain.com\""
    ∷ "    )"
    ∷ ""
    ∷ "    print(\"[+] Initiating Curve25519 Ephemeral Key Exchange...\")"
    ∷ "    if not client.init():"
    ∷ "        print(\"[-] Handshake failed or server Ed25519 signature invalid!\")"
    ∷ "        return"
    ∷ ""
    ∷ "    license_key = input(\"[?] Enter your license key: \").strip()"
    ∷ "    auth = client.authenticate_license(license_key)"
    ∷ ""
    ∷ "    if not auth.get(\"status\") == \"success\":"
    ∷ "        print(f\"[-] Authentication Failed: {auth.get('message')}\")"
    ∷ "        return"
    ∷ ""
    ∷ "    print(f\"[+] Successfully logged in! Tier: {auth['subscription']['name']}\")"
    ∷ ""
    ∷ "    # Fetch encrypted remote variable"
    ∷ "    stripe_key = client.get_variable(\"STRIPE_KEY\")"
    ∷ "    print(f\"[+] Loaded secure variable in RAM: {stripe_key}\")"
    ∷ ""
    ∷ "if __name__ == \"__main__\":"
    ∷ "    main()"
    ∷ []

unfoldable pub rust : Credentials → List String
rust c =
    "// ============================================================================"
    ∷ "// VOLQ-AUTH (OPENKEYAUTH) - RUST ZERO-DEPENDENCY INTEGRATION"
    ∷ "// ============================================================================"
    ∷ "use volq_auth::Client;"
    ∷ ""
    ∷ "fn main() -> Result<(), Box<dyn std::error::Error>> {"
    ∷ "    let mut client = Client::new("
    ∷ ("        \"" <> c.app_id <> "\",")
    ∷ ("        \"" <> c.app_version <> "\",")
    ∷ ("        \"" <> c.master_pub_key <> "\",")
    ∷ "        \"https://api.yourdomain.com\","
    ∷ "    );"
    ∷ ""
    ∷ "    println!(\"[+] Running ECDH Handshake...\");"
    ∷ "    client.init()?;"
    ∷ ""
    ∷ "    let license_key = \"VOLQ-XXXX-XXXX-XXXX\";"
    ∷ "    let auth = client.authenticate_license(license_key)?;"
    ∷ ""
    ∷ "    println!(\"[+] Authenticated: {} (Tier: {})\", auth.status, auth.subscription.name);"
    ∷ "    Ok(())"
    ∷ "}"
    ∷ []

unfoldable pub go : Credentials → List String
go c =
    "// ============================================================================"
    ∷ "// VOLQ-AUTH (OPENKEYAUTH) - GO CLIENT INTEGRATION"
    ∷ "// ============================================================================"
    ∷ "package main"
    ∷ ""
    ∷ "import ("
    ∷ "\t\"fmt\""
    ∷ "\t\"log\""
    ∷ "\t\"github.com/tasin546/volq-auth/sdks/go\""
    ∷ ")"
    ∷ ""
    ∷ "func main() {"
    ∷ "\tclient := volqauth.NewClient("
    ∷ ("\t\t\"" <> c.app_id <> "\",")
    ∷ ("\t\t\"" <> c.app_version <> "\",")
    ∷ ("\t\t\"" <> c.master_pub_key <> "\",")
    ∷ "\t\t\"https://api.yourdomain.com\","
    ∷ "\t)"
    ∷ ""
    ∷ "\tfmt.Println(\"[+] Handshaking with VOLQ-Auth Gateway...\")"
    ∷ "\tif err := client.Init(); err != nil {"
    ∷ "\t\tlog.Fatalf(\"[-] Handshake failed: %v\", err)"
    ∷ "\t}"
    ∷ ""
    ∷ "\tresult, err := client.AuthenticateLicense(\"VOLQ-XXXX-XXXX-XXXX\")"
    ∷ "\tif err != nil {"
    ∷ "\t\tlog.Fatalf(\"[-] Auth error: %v\", err)"
    ∷ "\t}"
    ∷ ""
    ∷ "\tfmt.Printf(\"[+] Success! Welcome: %s\n\", result.Subscription.Name)"
    ∷ "}"
    ∷ []
