-- ===== src/Dashboard/Docs/Native.antt =====
-- The snippets of the documentation for C++ and C#, line by line.
use volq_auth.Base.{List, [], ◌∷◌, String, ◌<>◌}
use volq_auth.Dashboard.Docs.Injected.{Credentials}

unfoldable pub cpp : Credentials → List String
cpp c =
    "// ============================================================================"
    ∷ "// VOLQ-AUTH (OPENKEYAUTH) - C++17 INTEGRATION EXAMPLE"
    ∷ "// ============================================================================"
    ∷ "#include \"volq_auth.hpp\""
    ∷ "#include <iostream>"
    ∷ ""
    ∷ "int main() {"
    ∷ "    // 1. Initialize VolqAuth Client with App Credentials"
    ∷ "    VolqAuth::Client client("
    ∷ ("        \"" <> c.app_id <> "\",")
    ∷ ("        \"" <> c.app_version <> "\",")
    ∷ ("        \"" <> c.master_pub_key <> "\",")
    ∷ "        \"https://api.yourdomain.com\""
    ∷ "    );"
    ∷ ""
    ∷ "    std::cout << \"[+] Performing Ephemeral ECDH Key Exchange...\" << std::endl;"
    ∷ "    if (!client.Init()) {"
    ∷ "        std::cerr << \"[-] Handshake failed or server response tampered!\" << std::endl;"
    ∷ "        return 1;"
    ∷ "    }"
    ∷ ""
    ∷ "    // 2. Authenticate License Key with Native Win32 HWID"
    ∷ "    std::string licenseKey;"
    ∷ "    std::cout << \"[?] Enter License Key: \";"
    ∷ "    std::cin >> licenseKey;"
    ∷ ""
    ∷ "    auto result = client.AuthenticateLicense(licenseKey);"
    ∷ "    if (!result.success) {"
    ∷ "        std::cerr << \"[-] Authentication Error: \" << result.errorMessage << std::endl;"
    ∷ "        return 1;"
    ∷ "    }"
    ∷ ""
    ∷ "    std::cout << \"[+] Welcome! Tier: \" << result.subscriptionName << std::endl;"
    ∷ ""
    ∷ "    // 3. Decrypt Remote Variable Directly in Memory"
    ∷ "    std::string secretUrl = client.GetRemoteVariable(\"API_ENDPOINT\");"
    ∷ "    std::cout << \"[+] Decrypted Remote Variable: \" << secretUrl << std::endl;"
    ∷ ""
    ∷ "    // Run protected application logic here..."
    ∷ "    return 0;"
    ∷ "}"
    ∷ []

unfoldable pub csharp : Credentials → List String
csharp c =
    "// ============================================================================"
    ∷ "// VOLQ-AUTH (OPENKEYAUTH) - C# / .NET 6+ INTEGRATION EXAMPLE"
    ∷ "// ============================================================================"
    ∷ "using System;"
    ∷ "using System.Threading.Tasks;"
    ∷ "using VolqAuth;"
    ∷ ""
    ∷ "namespace MyApp"
    ∷ "{"
    ∷ "    class Program"
    ∷ "    {"
    ∷ "        static async Task Main(string[] args)"
    ∷ "        {"
    ∷ "            var client = new VolqAuthClient("
    ∷ ("                appId: \"" <> c.app_id <> "\",")
    ∷ ("                appVersion: \"" <> c.app_version <> "\",")
    ∷ ("                masterPublicKey: \"" <> c.master_pub_key <> "\",")
    ∷ "                baseUrl: \"https://api.yourdomain.com\""
    ∷ "            );"
    ∷ ""
    ∷ "            Console.WriteLine(\"[+] Initializing ECDH Handshake...\");"
    ∷ "            bool initSuccess = await client.InitAsync();"
    ∷ "            if (!initSuccess)"
    ∷ "            {"
    ∷ "                Console.WriteLine(\"[-] Handshake or signature validation failed!\");"
    ∷ "                return;"
    ∷ "            }"
    ∷ ""
    ∷ "            Console.Write(\"[?] Enter License Key: \");"
    ∷ "            string licenseKey = Console.ReadLine();"
    ∷ ""
    ∷ "            var result = await client.AuthenticateLicenseAsync(licenseKey);"
    ∷ "            if (!result.Success)"
    ∷ "            {"
    ∷ "                Console.WriteLine($\"[-] Login Failed: {result.Message}\");"
    ∷ "                return;"
    ∷ "            }"
    ∷ ""
    ∷ "            Console.WriteLine($\"[+] Authenticated! Tier: {result.Subscription.Name}\");"
    ∷ ""
    ∷ "            string apiSecret = await client.GetVariableAsync(\"API_SECRET\");"
    ∷ "            Console.WriteLine($\"[+] Retrieved Secret: {apiSecret}\");"
    ∷ "        }"
    ∷ "    }"
    ∷ "}"
    ∷ []
